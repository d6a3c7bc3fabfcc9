-- ===== src/LakeFs/Ends.antt =====
-- crates/lakefs-authz/src/lakefs.rs: the listing of names ends, whatever lakeFS answers.
use lakefs_auth.Common.{
  ℕ, zero, suc, ◌+◌, ◌≤◌, ◌<◌, ◌≡◌, ◌≢◌, refl, arith, Bool, true, false, none, List, [], ◌++◌,
}
use lakefs_auth.Std.Order.{Text}
use lakefs_auth.Std.Result.{Result, ok, err}
use lakefs_auth.Core.Pagination.{CursorError, CursorWalk, ListResponse, new_walk, advance}
use lakefs_auth.Client.Walk.{advance_more}
use lakefs_auth.LakeFs.{
  Web, LakeFsClient, LakeFsError, Session, Listed, after_step, after_page, list_loop, list_names,
  get_path, page_path, max_pages,
}

module _ {W : Type 0} (web : Web W) (client : LakeFsClient) where
  after_step-ne-none :
      (again : CursorWalk → List Text → W → Listed web client) (path : Text) (names : List Text)
      (w : W) (step : Result Bool CursorError × CursorWalk)
      → (step.0 ≡ ok true → again step.1 names w ≢ none)
      → after_step web client again path names w step ≢ none
  unfolding after_step
  after_step-ne-none again path names w (ok true, walk) h = h refl
  after_step-ne-none again path names w (ok false, walk) h = λ p. cc
  after_step-ne-none again path names w (err (CursorError.too_many_pages n), walk) h = λ p. cc
  after_step-ne-none again path names w (err (CursorError.repeated cursor), walk) h = λ p. cc

  after_page-ne-none :
      (again : CursorWalk → List Text → W → Listed web client) (path : Text) (walk : CursorWalk)
      (names : List Text) (answer : Result (ListResponse Text) LakeFsError × W)
      → ((next : Text) (more : List Text) (w : W)
          → (advance walk next).0 ≡ ok true
          → again (advance walk next).1 more w ≢ none)
      → after_page web client again path walk names answer ≢ none
  unfolding after_page
  after_page-ne-none again path walk names (err e, w) h = λ p. cc
  after_page-ne-none again path walk names (ok page, w) h =
      after_step-ne-none again path (names ++ page.results) w
        (advance walk page.pagination.next_offset)
        (h page.pagination.next_offset (names ++ page.results) w)

  list_loop-ne-none :
      (fuel : ℕ) (path : Text) (session : Session) (walk : CursorWalk) (names : List Text) (w : W)
      → walk.pages < walk.max_pages
      → walk.max_pages ≤ walk.pages + fuel
      → list_loop web client fuel path session walk names w ≢ none
  unfolding list_loop
  list_loop-ne-none zero path session walk names w below enough = absurd (omega arith)
  list_loop-ne-none (suc fuel) path session walk names w below enough =
      after_page-ne-none (λ walk names w. list_loop web client fuel path session walk names w) path
        walk names
        (get_path web client web.read_names (page_path web client path walk.after) session w)
        λ next more w' e.
          list_loop-ne-none fuel path session (advance walk next).1 more w'
            (omega (arith, advance_more walk next e)) (omega (arith, advance_more walk next e))

  pub list_names-ne-none :
      (path : Text) (session : Session) (w : W) → list_names web client path session w ≢ none
  unfolding list_names new_walk
  list_names-ne-none path session w =
      list_loop-ne-none max_pages path session (new_walk max_pages) [] w (omega arith) (omega arith)
