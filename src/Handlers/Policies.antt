-- ===== src/Handlers/Policies.antt =====
-- crates/lakefs-authz/src/handlers/policies.rs and attachments.rs
use lakefs_auth.Common.{ℕ, Bool, Option, List, if◌then◌else◌}
use lakefs_auth.Common.Int.{ℤ}
use lakefs_auth.Std.Order.{Text}
use lakefs_auth.Std.Result.{Result}
use lakefs_auth.Core.Error.{ApiError}
use lakefs_auth.Core.Model.{Policy, Statement}
use lakefs_auth.Core.Pagination.{PaginationParams, ListResponse, normalize, map_page, into_response}
use lakefs_auth.Store.Error.{to_api_error}
use lakefs_auth.Store.Mem.Inner.{Inner}
use lakefs_auth.Store.Mem.Policies
use lakefs_auth.Service.PolicyRequests.{policy_to_wire}
use lakefs_auth.Service.PolicyRequests
use lakefs_auth.Handlers.{created_code, no_content, read, page_read, written, created}

pub record ListUserPoliciesQuery : Type 0 where
  pub page : PaginationParams
  pub effective : Bool

module _ {T : Type 0} (as_second : T → ℤ) where
  unfoldable pub list_policies : PaginationParams → Inner T → Result (ListResponse Policy) ApiError
  unfolding normalize map_page into_response to_api_error Policies.list_policies
  list_policies params s =
      page_read (policy_to_wire as_second) (Policies.list_policies (normalize params) s)

  unfoldable pub get_policy : Text → Inner T → Result Policy ApiError
  unfolding Policies.get_policy to_api_error
  get_policy name s = read (policy_to_wire as_second) (Policies.get_policy name s)

  unfoldable pub create_policy :
      (ℤ → Option T)
      → (Text → Result (List Text) Text)
      → (Statement → Text)
      → T
      → Policy
      → Inner T
      → Result (ℕ × Policy) ApiError × Inner T
  unfolding PolicyRequests.create_policy
  create_policy from_second from_str serialized now body s =
      created (PolicyRequests.create_policy from_second from_str serialized as_second now body s)

  unfoldable pub update_policy :
      (ℤ → Option T)
      → (Text → Result (List Text) Text)
      → Text
      → Policy
      → Inner T
      → Result Policy ApiError × Inner T
  unfolding PolicyRequests.update_policy
  update_policy from_second from_str name body s =
      PolicyRequests.update_policy from_second from_str as_second name body s

  unfoldable pub list_user_policies :
      Text → ListUserPoliciesQuery → Inner T → Result (ListResponse Policy) ApiError
  unfolding normalize map_page into_response to_api_error Policies.list_user_policies
      Policies.list_effective_user_policies
  list_user_policies username query s =
      let page = normalize query.page in
      page_read (policy_to_wire as_second) (
        if query.effective
        then Policies.list_effective_user_policies username page s
        else Policies.list_user_policies username page s)

  unfoldable pub list_group_policies :
      Text → PaginationParams → Inner T → Result (ListResponse Policy) ApiError
  unfolding normalize map_page into_response to_api_error Policies.list_group_policies
  list_group_policies group_id params s =
      page_read (policy_to_wire as_second)
        (Policies.list_group_policies group_id (normalize params) s)

module _ {T : Type 0} where
  unfoldable pub delete_policy : Text → Inner T → Result ℕ ApiError × Inner T
  unfolding Policies.delete_policy to_api_error
  delete_policy name s = written no_content (Policies.delete_policy name s)

  unfoldable pub attach_policy_to_user : Text → Text → Inner T → Result ℕ ApiError × Inner T
  unfolding Policies.attach_policy_to_user to_api_error
  attach_policy_to_user username policy s =
      written created_code (Policies.attach_policy_to_user username policy s)

  unfoldable pub detach_policy_from_user : Text → Text → Inner T → Result ℕ ApiError × Inner T
  unfolding Policies.detach_policy_from_user to_api_error
  detach_policy_from_user username policy s =
      written no_content (Policies.detach_policy_from_user username policy s)

  unfoldable pub attach_policy_to_group : Text → Text → Inner T → Result ℕ ApiError × Inner T
  unfolding Policies.attach_policy_to_group to_api_error
  attach_policy_to_group group_id policy s =
      written created_code (Policies.attach_policy_to_group group_id policy s)

  unfoldable pub detach_policy_from_group : Text → Text → Inner T → Result ℕ ApiError × Inner T
  unfolding Policies.detach_policy_from_group to_api_error
  detach_policy_from_group group_id policy s =
      written no_content (Policies.detach_policy_from_group group_id policy s)
