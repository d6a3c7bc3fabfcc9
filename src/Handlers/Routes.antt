-- ===== src/Handlers/Routes.antt =====
-- crates/lakefs-authz/src/routes.rs: which handler answers a method on a path. Matching a request
-- with a path is left to axum.
use lakefs_auth.Common.{List, [], ◌∷◌}
use lakefs_auth.Std.Order.{Text}
use lakefs_auth.Std.Str.{codes}

-- The names of the handlers.
pub data Handler : Type 0 where
  list_users create_user get_user delete_user update_password update_friendly_name list_groups
        create_group get_group delete_group list_policies create_policy get_policy update_policy
        delete_policy list_group_members add_membership delete_membership list_user_credentials
        create_credentials get_credentials_for_user delete_credentials get_credentials
        list_user_groups list_user_policies attach_policy_to_user detach_policy_from_user
        list_group_policies attach_policy_to_group detach_policy_from_group claim_token_id
        list_user_external_principals create_user_external_principal delete_user_external_principal
        get_external_principal version healthcheck readyz :
      Handler

pub data Method : Type 0 where
  get post put delete : Method

-- `Router::route`
abbrev pub Route : Type 0
Route = Text × List (Method × Handler)

abbrev pub healthcheck_path : Text
healthcheck_path = codes "/healthcheck"

abbrev pub readyz_path : Text
readyz_path = codes "/readyz"

-- Every method and path of the API.
abbrev pub route_table : List (Text × Text)
route_table =
    (codes "GET", codes "/auth/users")
    ∷ (codes "POST", codes "/auth/users")
    ∷ (codes "GET", codes "/auth/users/{userId}")
    ∷ (codes "DELETE", codes "/auth/users/{userId}")
    ∷ (codes "PUT", codes "/auth/users/{userId}/password")
    ∷ (codes "PUT", codes "/auth/users/{userId}/friendly_name")
    ∷ (codes "GET", codes "/auth/groups")
    ∷ (codes "POST", codes "/auth/groups")
    ∷ (codes "GET", codes "/auth/groups/{groupId}")
    ∷ (codes "DELETE", codes "/auth/groups/{groupId}")
    ∷ (codes "GET", codes "/auth/policies")
    ∷ (codes "POST", codes "/auth/policies")
    ∷ (codes "GET", codes "/auth/policies/{policyId}")
    ∷ (codes "PUT", codes "/auth/policies/{policyId}")
    ∷ (codes "DELETE", codes "/auth/policies/{policyId}")
    ∷ (codes "GET", codes "/auth/groups/{groupId}/members")
    ∷ (codes "PUT", codes "/auth/groups/{groupId}/members/{userId}")
    ∷ (codes "DELETE", codes "/auth/groups/{groupId}/members/{userId}")
    ∷ (codes "GET", codes "/auth/users/{userId}/credentials")
    ∷ (codes "POST", codes "/auth/users/{userId}/credentials")
    ∷ (codes "GET", codes "/auth/users/{userId}/credentials/{accessKeyId}")
    ∷ (codes "DELETE", codes "/auth/users/{userId}/credentials/{accessKeyId}")
    ∷ (codes "GET", codes "/auth/credentials/{accessKeyId}")
    ∷ (codes "GET", codes "/auth/users/{userId}/groups")
    ∷ (codes "GET", codes "/auth/users/{userId}/policies")
    ∷ (codes "PUT", codes "/auth/users/{userId}/policies/{policyId}")
    ∷ (codes "DELETE", codes "/auth/users/{userId}/policies/{policyId}")
    ∷ (codes "GET", codes "/auth/groups/{groupId}/policies")
    ∷ (codes "PUT", codes "/auth/groups/{groupId}/policies/{policyId}")
    ∷ (codes "DELETE", codes "/auth/groups/{groupId}/policies/{policyId}")
    ∷ (codes "POST", codes "/auth/tokenid/claim")
    ∷ (codes "GET", codes "/auth/users/{userId}/external/principals/ls")
    ∷ (codes "POST", codes "/auth/users/{userId}/external/principals")
    ∷ (codes "DELETE", codes "/auth/users/{userId}/external/principals")
    ∷ (codes "GET", codes "/auth/external/principals")
    ∷ (codes "GET", codes "/healthcheck")
    ∷ (codes "GET", codes "/config/version")
    ∷ []

abbrev pub protected_router : List Route
protected_router =
    (codes "/auth/users", (Method.get, list_users) ∷ (Method.post, create_user) ∷ [])
    ∷ (codes "/auth/users/{userId}", (Method.get, get_user) ∷ (Method.delete, delete_user) ∷ [])
    ∷ (codes "/auth/users/{userId}/password", (Method.put, update_password) ∷ [])
    ∷ (codes "/auth/users/{userId}/friendly_name", (Method.put, update_friendly_name) ∷ [])
    ∷ (codes "/auth/groups", (Method.get, list_groups) ∷ (Method.post, create_group) ∷ [])
    ∷ (codes "/auth/groups/{groupId}", (Method.get, get_group) ∷ (Method.delete, delete_group) ∷ [])
    ∷ (codes "/auth/policies", (Method.get, list_policies) ∷ (Method.post, create_policy) ∷ [])
    ∷ (
      codes "/auth/policies/{policyId}",
      (Method.get, get_policy) ∷ (Method.put, update_policy) ∷ (Method.delete, delete_policy) ∷ [],
    )
    ∷ (codes "/auth/groups/{groupId}/members", (Method.get, list_group_members) ∷ [])
    ∷ (
      codes "/auth/groups/{groupId}/members/{userId}",
      (Method.put, add_membership) ∷ (Method.delete, delete_membership) ∷ [],
    )
    ∷ (
      codes "/auth/users/{userId}/credentials",
      (Method.get, list_user_credentials) ∷ (Method.post, create_credentials) ∷ [],
    )
    ∷ (
      codes "/auth/users/{userId}/credentials/{accessKeyId}",
      (Method.get, get_credentials_for_user) ∷ (Method.delete, delete_credentials) ∷ [],
    )
    ∷ (codes "/auth/credentials/{accessKeyId}", (Method.get, get_credentials) ∷ [])
    ∷ (codes "/auth/users/{userId}/groups", (Method.get, list_user_groups) ∷ [])
    ∷ (codes "/auth/users/{userId}/policies", (Method.get, list_user_policies) ∷ [])
    ∷ (
      codes "/auth/users/{userId}/policies/{policyId}",
      (Method.put, attach_policy_to_user) ∷ (Method.delete, detach_policy_from_user) ∷ [],
    )
    ∷ (codes "/auth/groups/{groupId}/policies", (Method.get, list_group_policies) ∷ [])
    ∷ (
      codes "/auth/groups/{groupId}/policies/{policyId}",
      (Method.put, attach_policy_to_group) ∷ (Method.delete, detach_policy_from_group) ∷ [],
    )
    ∷ (codes "/auth/tokenid/claim", (Method.post, claim_token_id) ∷ [])
    ∷ (
      codes "/auth/users/{userId}/external/principals/ls",
      (Method.get, list_user_external_principals) ∷ [],
    )
    ∷ (
      codes "/auth/users/{userId}/external/principals",
      (Method.post, create_user_external_principal)
          ∷ (Method.delete, delete_user_external_principal)
          ∷ [],
    )
    ∷ (codes "/auth/external/principals", (Method.get, get_external_principal) ∷ [])
    ∷ (codes "/config/version", (Method.get, version) ∷ [])
    ∷ []

abbrev pub public_router : List Route
public_router = (healthcheck_path, (Method.get, healthcheck) ∷ []) ∷ []

abbrev pub root_router : List Route
root_router = (readyz_path, (Method.get, readyz) ∷ []) ∷ []
