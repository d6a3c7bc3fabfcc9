-- ===== src/Client.antt =====
-- crates/lakefs-authz-client/src/lib.rs: the client of the authorization API. What a request
-- answers is an argument of each function, since HTTP is not the program's.
pub mod Walk
pub mod Paged
pub mod Ensure
use lakefs_auth.Common.{
  ℕ, zero, suc, Bool, true, false, Option, none, some, String, List, [], ◌∷◌, ◌++◌,
}
use lakefs_auth.Std.Order.{Text}
use lakefs_auth.Std.Result.{Result, ok, err, ◌>>=◌}
use lakefs_auth.Core.Error.{ApiError}
use lakefs_auth.Core.Validate.{validate_entity_id}
use lakefs_auth.Core.Pagination.{CursorError, CursorWalk, ListResponse, new_walk, advance}

-- `pagination` keeps the error of the walk, which the source formats with the name of the user.
pub data ClientError : Type 0 where
  config transport bad_request invalid_id decode : Text → ClientError
  unauthorized not_found already_exists non_unique : ClientError
  pagination : CursorError → ClientError
  status : ℕ → Text → ClientError

-- `MAX_PAGES` of `list_user_groups`
abbrev pub max_pages : ℕ
max_pages = 20

-- The loop of `list_user_groups`. `fetch n after` is what the request of page `n` answers: the
-- server may answer the same cursor otherwise later. `none` says that the fuel ran out.
abbrev pub Walked {ℓ} : Type ℓ → Type ℓ
Walked T = Option (Result (List T) ClientError)

module _ {ℓ} {T : Type ℓ} where
  pub after_advance :
      (CursorWalk → List T → Walked T) → List T → Result Bool CursorError × CursorWalk → Walked T
  after_advance again groups (err e, w) = some (err (pagination e))
  after_advance again groups (ok true, w) = again w groups
  after_advance again groups (ok false, w) = some (ok groups)

  pub after_fetch :
      (CursorWalk → List T → Walked T)
      → CursorWalk
      → List T
      → Result (ListResponse T) ClientError
      → Walked T
  after_fetch again w groups (err e) = some (err e)
  after_fetch again w groups (ok page) =
      after_advance again (groups ++ page.results) (advance w page.pagination.next_offset)

  module _ (fetch : ℕ → Text → Result (ListResponse T) ClientError) where
    pub walk_loop : ℕ → CursorWalk → List T → Walked T
    walk_loop zero w groups = none
    walk_loop (suc fuel) w groups = after_fetch (walk_loop fuel) w groups (fetch w.pages w.after)

    -- `list_user_groups`, once the username is known to be one path segment
    pub list_all : Walked T
    unfolding walk_loop after_fetch after_advance new_walk advance
    list_all = walk_loop max_pages (new_walk max_pages) []
