-- ===== src/Handlers/Groups.antt =====
-- crates/lakefs-authz/src/handlers/groups.rs and memberships.rs
use lakefs_auth.Common.{ℕ}
use lakefs_auth.Common.Int.{ℤ}
use lakefs_auth.Std.Order.{Text}
use lakefs_auth.Std.Result.{Result}
use lakefs_auth.Core.Error.{ApiError}
use lakefs_auth.Core.Model.{User, Group, GroupCreation}
use lakefs_auth.Core.Pagination.{PaginationParams, ListResponse, normalize, map_page, into_response}
use lakefs_auth.Store.Error.{to_api_error}
use lakefs_auth.Store.Mem.Inner.{Inner}
use lakefs_auth.Store.Mem.Groups
use lakefs_auth.Service.{user_to_wire, group_to_wire}
use lakefs_auth.Service
use lakefs_auth.Handlers.{created_code, no_content, read, page_read, written, created}

module _ {T : Type 0} (as_second : T → ℤ) where
  unfoldable pub list_groups : PaginationParams → Inner T → Result (ListResponse Group) ApiError
  unfolding normalize map_page into_response to_api_error Groups.list_groups
  list_groups params s =
      page_read (group_to_wire as_second) (Groups.list_groups (normalize params) s)

  unfoldable pub create_group : T → GroupCreation → Inner T → Result (ℕ × Group) ApiError × Inner T
  unfolding Service.create_group
  create_group now body s = created (Service.create_group as_second now body s)

  unfoldable pub get_group : Text → Inner T → Result Group ApiError
  unfolding Groups.get_group to_api_error
  get_group group_id s = read (group_to_wire as_second) (Groups.get_group group_id s)

  unfoldable pub list_group_members :
      Text → PaginationParams → Inner T → Result (ListResponse User) ApiError
  unfolding normalize map_page into_response to_api_error Groups.list_group_members
  list_group_members group_id params s =
      page_read (user_to_wire as_second) (Groups.list_group_members group_id (normalize params) s)

  unfoldable pub list_user_groups :
      Text → PaginationParams → Inner T → Result (ListResponse Group) ApiError
  unfolding normalize map_page into_response to_api_error Groups.list_user_groups
  list_user_groups username params s =
      page_read (group_to_wire as_second) (Groups.list_user_groups username (normalize params) s)

module _ {T : Type 0} where
  unfoldable pub delete_group : Text → Inner T → Result ℕ ApiError × Inner T
  unfolding Groups.delete_group to_api_error
  delete_group group_id s = written no_content (Groups.delete_group group_id s)

  unfoldable pub add_membership : Text → Text → Inner T → Result ℕ ApiError × Inner T
  unfolding Groups.add_membership to_api_error
  add_membership group_id username s =
      written created_code (Groups.add_membership group_id username s)

  unfoldable pub delete_membership : Text → Text → Inner T → Result ℕ ApiError × Inner T
  unfolding Groups.remove_membership to_api_error
  delete_membership group_id username s =
      written no_content (Groups.remove_membership group_id username s)
