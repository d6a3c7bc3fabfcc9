-- ===== src/Core/Catalog/Actions.antt =====
-- crates/lakefs-auth-core/src/catalog.rs: the actions, in the order of `actions.gen.go`, and the
-- catalog as JSON.
use lakefs_auth.Common.{List, [], ◌∷◌, ◌++◌, map}
use lakefs_auth.Std.Order.{Text}
use lakefs_auth.Std.Str.{codes}
use lakefs_auth.Core.Catalog.{
  ResourceKind, ActionSpec, branch, catalog_namespace, catalog_table, catalog_view, every,
  external_principal, group, namespace, object, policy, repository, tag, user, resource_kinds,
  template, fields, id, service,
}

abbrev action : Text → List ResourceKind → ActionSpec
action name resources = record { name = name; resources = resources }

-- The actions of each service.
abbrev fs_actions : List ActionSpec
fs_actions =
    action (codes "fs:ReadRepository") (repository ∷ [])
    ∷ action (codes "fs:CreateRepository") (repository ∷ [])
    ∷ action (codes "fs:UpdateRepository") (repository ∷ [])
    ∷ action (codes "fs:AttachStorageNamespace") (namespace ∷ [])
    ∷ action (codes "fs:ImportFromStorage") (namespace ∷ [])
    ∷ action (codes "fs:ImportCancel") (branch ∷ [])
    ∷ action (codes "fs:DeleteRepository") (repository ∷ [])
    ∷ action (codes "fs:ListRepositories") (every ∷ [])
    ∷ action (codes "fs:ReadObject") (object ∷ [])
    ∷ action (codes "fs:WriteObject") (object ∷ branch ∷ [])
    ∷ action (codes "fs:DeleteObject") (object ∷ [])
    ∷ action (codes "fs:ListObjects") (repository ∷ [])
    ∷ action (codes "fs:CreateCommit") (branch ∷ repository ∷ [])
    ∷ action (codes "fs:ReadCommit") (repository ∷ [])
    ∷ action (codes "fs:ListCommits") (repository ∷ [])
    ∷ action (codes "fs:CreateBranch") (branch ∷ repository ∷ [])
    ∷ action (codes "fs:DeleteBranch") (branch ∷ [])
    ∷ action (codes "fs:ReadBranch") (branch ∷ [])
    ∷ action (codes "fs:RevertBranch") (branch ∷ [])
    ∷ action (codes "fs:ListBranches") (repository ∷ [])
    ∷ action (codes "fs:CreateTag") (tag ∷ repository ∷ [])
    ∷ action (codes "fs:DeleteTag") (tag ∷ [])
    ∷ action (codes "fs:ReadTag") (tag ∷ [])
    ∷ action (codes "fs:ListTags") (repository ∷ [])
    ∷ action (codes "fs:ReadConfig") (every ∷ [])
    ∷ []

abbrev auth_actions : List ActionSpec
auth_actions =
    action (codes "auth:ReadUser") (user ∷ [])
    ∷ action (codes "auth:CreateUser") (user ∷ [])
    ∷ action (codes "auth:DeleteUser") (user ∷ [])
    ∷ action (codes "auth:ListUsers") (every ∷ [])
    ∷ action (codes "auth:ReadGroup") (group ∷ [])
    ∷ action (codes "auth:CreateGroup") (group ∷ [])
    ∷ action (codes "auth:DeleteGroup") (group ∷ [])
    ∷ action (codes "auth:ListGroups") (every ∷ [])
    ∷ action (codes "auth:AddGroupMember") (group ∷ [])
    ∷ action (codes "auth:RemoveGroupMember") (group ∷ [])
    ∷ action (codes "auth:ReadPolicy") (policy ∷ [])
    ∷ action (codes "auth:CreatePolicy") (policy ∷ [])
    ∷ action (codes "auth:UpdatePolicy") (policy ∷ [])
    ∷ action (codes "auth:DeletePolicy") (policy ∷ [])
    ∷ action (codes "auth:ListPolicies") (every ∷ [])
    ∷ action (codes "auth:AttachPolicy") (user ∷ group ∷ policy ∷ [])
    ∷ action (codes "auth:DetachPolicy") (user ∷ group ∷ policy ∷ [])
    ∷ action (codes "auth:ReadCredentials") (user ∷ [])
    ∷ action (codes "auth:CreateCredentials") (user ∷ [])
    ∷ action (codes "auth:DeleteCredentials") (user ∷ [])
    ∷ action (codes "auth:ListCredentials") (user ∷ [])
    ∷ action (codes "auth:CreateUserExternalPrincipal") (user ∷ [])
    ∷ action (codes "auth:DeleteUserExternalPrincipal") (user ∷ [])
    ∷ action (codes "auth:ReadExternalPrincipal") (external_principal ∷ [])
    ∷ []

abbrev ci_actions : List ActionSpec
ci_actions = action (codes "ci:ReadAction") (repository ∷ []) ∷ []

abbrev retention_actions : List ActionSpec
retention_actions =
    action (codes "retention:PrepareGarbageCollectionCommits") (repository ∷ [])
    ∷ action (codes "retention:GetGarbageCollectionRules") (repository ∷ [])
    ∷ action (codes "retention:SetGarbageCollectionRules") (repository ∷ [])
    ∷ action (codes "retention:PrepareGarbageCollectionUncommitted") (repository ∷ [])
    ∷ []

abbrev branches_actions : List ActionSpec
branches_actions =
    action (codes "branches:GetBranchProtectionRules") (repository ∷ [])
    ∷ action (codes "branches:SetBranchProtectionRules") (repository ∷ [])
    ∷ []

abbrev pr_actions : List ActionSpec
pr_actions =
    action (codes "pr:ReadPullRequest") (repository ∷ [])
    ∷ action (codes "pr:WritePullRequest") (repository ∷ [])
    ∷ action (codes "pr:ListPullRequests") (repository ∷ [])
    ∷ []

abbrev catalog_actions : List ActionSpec
catalog_actions =
    action (codes "catalog:ListNamespaces") (catalog_namespace ∷ [])
    ∷ action (codes "catalog:GetNamespace") (catalog_namespace ∷ [])
    ∷ action (codes "catalog:CreateNamespace") (catalog_namespace ∷ [])
    ∷ action (codes "catalog:UpdateNamespace") (catalog_namespace ∷ [])
    ∷ action (codes "catalog:DeleteNamespace") (catalog_namespace ∷ [])
    ∷ action (codes "catalog:ListTables") (catalog_table ∷ [])
    ∷ action (codes "catalog:ReadTable") (catalog_table ∷ [])
    ∷ action (codes "catalog:CreateTable") (catalog_table ∷ [])
    ∷ action (codes "catalog:UpdateTable") (catalog_table ∷ [])
    ∷ action (codes "catalog:DeleteTable") (catalog_table ∷ [])
    ∷ action (codes "catalog:ListViews") (catalog_view ∷ [])
    ∷ action (codes "catalog:ReadView") (catalog_view ∷ [])
    ∷ action (codes "catalog:CreateView") (catalog_view ∷ [])
    ∷ action (codes "catalog:UpdateView") (catalog_view ∷ [])
    ∷ action (codes "catalog:DeleteView") (catalog_view ∷ [])
    ∷ []

abbrev pub actions : List ActionSpec
actions =
    fs_actions
    ++ (auth_actions
        ++ (ci_actions
            ++ (retention_actions ++ (branches_actions ++ (pr_actions ++ (catalog_actions))))))

-- What `serde_json` builds a `Value` of.
pub record Json (V : Type 0) : Type 0 where
  pub string : Text → V
  pub array : List V → V
  pub dict : List (Text × V) → V

module _ {V : Type 0} (json : Json V) where
  abbrev pub texts : List Text → V
  texts list = json.array (map json.string list)

  abbrev pub kind_json : ResourceKind → Text × V
  kind_json kind = (
    id kind,
    json.dict (
        (codes "template", json.string (template kind))
        ∷ (codes "fields", texts (fields kind))
        ∷ []),
  )

  unfoldable pub action_json : ActionSpec → V
  unfolding service
  action_json action = json.dict (
      (codes "name", json.string action.name)
      ∷ (codes "service", json.string (service action))
      ∷ (codes "resources", texts (map id action.resources))
      ∷ [])

  -- The entries of a `Map` are given in the order of the kinds.
  unfoldable pub as_json : V
  unfolding action_json
  as_json = json.dict (
      (codes "kinds", json.dict (map kind_json resource_kinds))
      ∷ (codes "actions", json.array (map action_json actions))
      ∷ [])
