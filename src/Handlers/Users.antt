-- ===== src/Handlers/Users.antt =====
-- crates/lakefs-authz/src/handlers/users.rs
use lakefs_auth.Common.{ℕ, Option, none, some, List, [], ◌∷◌, map}
use lakefs_auth.Common.Int.{ℤ, pos, negsuc}
use lakefs_auth.Std.Order.{Text}
use lakefs_auth.Std.Str.{codes}
use lakefs_auth.Std.Parse.{parse_i64}
use lakefs_auth.Std.Result.{Result, ok}
use lakefs_auth.Core.Error.{ApiError, not_implemented}
use lakefs_auth.Core.Model.{User, UserCreation}
use lakefs_auth.Core.Text.{non_blank}
use lakefs_auth.Core.Pagination.{
  PaginationParams, ListResponse, normalize, last, map_page, into_response,
}
use lakefs_auth.Store.Error.{to_api_error}
use lakefs_auth.Store.Types.{UserRecord, ◌and_then◌}
use lakefs_auth.Store.Mem.Inner.{Inner}
use lakefs_auth.Store.Mem.Users
use lakefs_auth.Service.{user_to_wire}
use lakefs_auth.Service
use lakefs_auth.Handlers.{no_content, read, page_read, written, created}

pub record ListUsersQuery : Type 0 where
  pub page : PaginationParams
  pub id : Option Text
  pub email : Option Text
  pub external_id : Option Text

-- `option.into_iter().collect()`
abbrev pub collect : {A : Type 0} → Option A → List A
collect none = []
collect (some a) = a ∷ []

module _ {T : Type 0} (as_second : T → ℤ) where
  abbrev pub single : Option (UserRecord T) → ListResponse User
  single user = into_response (last (map (user_to_wire as_second) (collect user)))

  -- `id.parse::<i64>()`; the ids of users are not negative.
  abbrev pub by_id : Option ℤ → Inner T → Result (ListResponse User) ApiError
  by_id none s = ok (single none)
  by_id (some (pos id)) s = read single (Users.find_user_by_id id s)
  by_id (some (negsuc n)) s = ok (single none)

  -- The three filters, trimmed, and then the page.
  abbrev pub filtered :
      Option Text
      → Option Text
      → Option Text
      → PaginationParams
      → Inner T
      → Result (ListResponse User) ApiError
  filtered (some id) email external_id page s = by_id (parse_i64 id) s
  filtered none (some email) external_id page s = read single (Users.find_user_by_email email s)
  filtered none none (some external_id) page s =
      read single (Users.find_user_by_external_id external_id s)
  filtered none none none page s =
      page_read (user_to_wire as_second) (Users.list_users (normalize page) s)

  unfoldable pub list_users : ListUsersQuery → Inner T → Result (ListResponse User) ApiError
  unfolding non_blank normalize last into_response map_page parse_i64 to_api_error
      Users.find_user_by_id Users.find_user_by_email Users.find_user_by_external_id Users.list_users
  list_users query s =
      filtered (query.id and_then non_blank) (query.email and_then non_blank)
        (query.external_id and_then non_blank) query.page s

  unfoldable pub create_user : T → UserCreation → Inner T → Result (ℕ × User) ApiError × Inner T
  unfolding Service.create_user
  create_user now body s = created (Service.create_user as_second now body s)

  unfoldable pub get_user : Text → Inner T → Result User ApiError
  unfolding Users.get_user to_api_error
  get_user username s = read (user_to_wire as_second) (Users.get_user username s)

module _ {T : Type 0} where
  unfoldable pub delete_user : Text → Inner T → Result ℕ ApiError × Inner T
  unfolding Users.delete_user to_api_error
  delete_user username s = written no_content (Users.delete_user username s)

  unfoldable pub update_friendly_name : Text → Text → Inner T → Result ℕ ApiError × Inner T
  unfolding Users.set_friendly_name to_api_error
  update_friendly_name username friendly_name s =
      written no_content (Users.set_friendly_name username friendly_name s)

abbrev pub update_password : ApiError
update_password = not_implemented (codes "password authentication is not supported by this server")
