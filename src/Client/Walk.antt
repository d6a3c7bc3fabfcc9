-- ===== src/Client/Walk.antt =====
-- The walk over the pages of a listing ends, whatever the server answers.
use lakefs_auth.Common.{
  ℕ, zero, suc, ◌+◌, ◌≤◌, ◌<◌, ◌≡◌, ◌≢◌, refl, arith, Bool, true, false, none, some, List, [], ◌++◌,
  Option-cases, inl, inr,
}
use lakefs_auth.Std.Order.{Text}
use lakefs_auth.Std.Result.{Result, ok, err}
use lakefs_auth.Core.Pagination.{CursorError, CursorWalk, ListResponse, new_walk, advance}
use lakefs_auth.Client.{
  ClientError, Walked, after_advance, after_fetch, walk_loop, list_all, max_pages,
}

-- A walk that asks for one more page has counted this one and is below its bound.
pub advance_more :
    (w : CursorWalk) (next : Text)
    → (advance w next).0 ≡ ok true
    → ((advance w next).1.pages ≡ w.pages + 1)
      × ((advance w next).1.max_pages ≡ w.max_pages)
      × (w.pages + 1 < w.max_pages)
unfolding advance
advance_more w next e = ground arith

module _ {ℓ} {T : Type ℓ} where
  after_advance-ne-none :
      (again : CursorWalk → List T → Walked T) (groups : List T)
      (step : Result Bool CursorError × CursorWalk)
      → (step.0 ≡ ok true → again step.1 groups ≢ none)
      → after_advance again groups step ≢ none
  unfolding after_advance
  after_advance-ne-none again groups (err e, w) h = λ p. cc
  after_advance-ne-none again groups (ok true, w) h = h refl
  after_advance-ne-none again groups (ok false, w) h = λ p. cc

  after_fetch-ne-none :
      (again : CursorWalk → List T → Walked T) (w : CursorWalk) (groups : List T)
      (answer : Result (ListResponse T) ClientError)
      → ((next : Text) (more : List T)
          → (advance w next).0 ≡ ok true
          → again (advance w next).1 more ≢ none)
      → after_fetch again w groups answer ≢ none
  unfolding after_fetch
  after_fetch-ne-none again w groups (err e) h = λ p. cc
  after_fetch-ne-none again w groups (ok page) h =
      after_advance-ne-none again (groups ++ page.results) (advance w page.pagination.next_offset)
        (h page.pagination.next_offset (groups ++ page.results))

  module _ (fetch : ℕ → Text → Result (ListResponse T) ClientError) where
    pub walk_loop-ne-none :
        (fuel : ℕ) (w : CursorWalk) (groups : List T)
        → w.pages < w.max_pages
        → w.max_pages ≤ w.pages + fuel
        → walk_loop fetch fuel w groups ≢ none
    unfolding walk_loop
    walk_loop-ne-none zero w groups below enough = absurd (omega arith)
    walk_loop-ne-none (suc fuel) w groups below enough =
        after_fetch-ne-none (walk_loop fetch fuel) w groups (fetch w.pages w.after) λ next more e.
          walk_loop-ne-none fuel (advance w next).1 more (omega (arith, advance_more w next e))
            (omega (arith, advance_more w next e))

    -- Whatever the server answers, page after page, the listing ends with all items or an error:
    -- the bound on the pages is also enough fuel.
    pub list_all_ends : (r : Result (List T) ClientError) × (list_all fetch ≡ some r)
    list_all_ends = elim (Option-cases (list_all fetch)) [
      | inl out ↦ absurd (stuck out)
      | inr found ↦ found
    ]
      where
        stuck : list_all fetch ≢ none
        stuck =
            unfold list_all new_walk in
            walk_loop-ne-none max_pages (new_walk max_pages) [] (omega arith) (omega arith)
