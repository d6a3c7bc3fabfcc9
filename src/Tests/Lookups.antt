-- ===== src/Tests/Lookups.antt =====
-- A created user, looked up, at concrete values.
use lakefs_auth.Common.{ℕ, ◌≡◌, refl, none, some, [], ◌∷◌}
use lakefs_auth.Common.Int.{pos}
use lakefs_auth.Std.Order.{cmp_text}
use lakefs_auth.Std.Str.{codes}
use lakefs_auth.Std.Result.{ok}
use lakefs_auth.Core.Model.{User, UserCreation}
use lakefs_auth.Core.Pagination.{PaginationParams, last, into_response}
use lakefs_auth.Store.Mem.Inner.{default}
use lakefs_auth.Store.Mem.Invariant.Reach.{default-IsValid}
use lakefs_auth.Handlers.Users.{list_users, create_user}
use lakefs_auth.Handlers.Lookup.{list_users-create_user}
use lakefs_auth.Core.Text.{non_blank}
use lakefs_auth.Std.BTreeMap.{get}

abbrev body : UserCreation
body = record {
  username = codes "bob";
  email = none;
  friendly_name = none;
  source = none;
  encrypted_password = none;
  external_id = some (codes " x1");
  invite = none;
}

abbrev bob : User
bob = record {
  username = codes "bob";
  creation_date = pos 3;
  friendly_name = none;
  email = none;
  source = none;
  encrypted_password = none;
  external_id = some (codes "x1");
}

abbrev first_page : PaginationParams
first_page = record { prefix = none; after = none; amount = none }

list_users-create_user_example :
    list_users pos
      (record { page = first_page; id = none; email = none; external_id = some (codes " x1") })
      (create_user pos 3 body (default ℕ)).1
    ≡ ok (into_response (last (bob ∷ [])))
unfolding non_blank create_user cmp_text get
list_users-create_user_example =
    list_users-create_user pos 3 body first_page (default ℕ) bob (codes "x1") (default-IsValid ℕ)
      refl refl
