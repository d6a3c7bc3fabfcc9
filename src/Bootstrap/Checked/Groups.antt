-- ===== src/Bootstrap/Checked/Groups.antt =====
-- crates/lakefs-authz/src/bootstrap.rs: the loops over policies and groups.
use lakefs_auth.Common.{◌≡◌, Option, List, [], ◌∷◌}
use lakefs_auth.Std.Order.{Text, text_ord}
use lakefs_auth.Std.Result.{Result, ok, bind-ok}
use lakefs_auth.Core.Validate.{validate_entity_id, validate_policy}
use lakefs_auth.Core.Crypto.SecretBox.{SecretBox}
use lakefs_auth.Store.Types.{NewGroup, BootstrapPlan, validated_group, validated_policy}
use lakefs_auth.Bootstrap.File.{PolicySpec, GroupSpec, CredentialSpec}
use lakefs_auth.Bootstrap.Plan.{for_each, push, anyhow, add_policy, add_group_policy, add_group}
use lakefs_auth.Bootstrap.Checked.{
  group_ids, IsId, IsChecked, for_each-Keeps, All-push, All-weaken, IsIn-push, IsIn-cons,
  IsIn-first, checked-ok, anyhow-ok,
}

module _ {T : Type 0} (from_str : Text → Result (List Text) Text) (secrets : SecretBox)
    (env : Text → Option Text) (given : Text → CredentialSpec → Type 0) where
  abbrev Checked : List Text → List Text → BootstrapPlan T → Type 0
  Checked = IsChecked from_str secrets env given

  pub add_policy-Keeps :
      (now : T) (spec : PolicySpec) (plan after : BootstrapPlan T)
      → add_policy from_str now spec plan ≡ ok after
      → Checked [] [] plan
      → Checked [] [] after
  unfolding add_policy validated_policy
  add_policy-Keeps now spec plan after h c =
      let (row, read, done) =
        bind-ok (anyhow (validated_policy from_str spec.name spec.statement spec.acl now))
          (λ row. ok (record plan { policies = push plan.policies row })) after h in
      let (valid, made) =
        checked-ok (validate_policy from_str spec.name spec.statement) _ row
          (anyhow-ok _ row read) in
      let same : record plan { policies = push plan.policies row } ≡ after = cc in
      rw (← same, ← made)
        (record {
          policies = All-push _ plan.policies _ c.policies valid;
          groups = c.groups;
          users = c.users;
          memberships = c.memberships;
          user_policies = c.user_policies;
          group_policies = c.group_policies;
          credentials = c.credentials;
        })

  add_group_policy-Keeps :
      (group_id policy : Text) (plan after : BootstrapPlan T)
      → add_group_policy group_id policy plan ≡ ok after
      → Checked [] (group_id ∷ []) plan
      → Checked [] (group_id ∷ []) after
  unfolding add_group_policy
  add_group_policy-Keeps group_id policy plan after h c =
      let (u, read, done) =
        bind-ok (anyhow (validate_entity_id "policy" policy))
          (λ _. ok (record plan { group_policies = push plan.group_policies (group_id, policy) }))
          after h in
      let same : record plan { group_policies = push plan.group_policies (group_id, policy) }
          ≡ after =
        cc in
      let valid : IsId "policy" policy = anyhow-ok _ u read in
      rw (← same) (record {
        policies = c.policies;
        groups = c.groups;
        users = c.users;
        memberships = c.memberships;
        user_policies = c.user_policies;
        group_policies =
            All-push _ plan.group_policies (group_id, policy) c.group_policies
              (valid, IsIn-first group_id (group_ids plan));
        credentials = c.credentials;
      })

  group-Checked :
      (plan : BootstrapPlan T) (row : NewGroup T)
      → IsId "group" row.id
      → Checked [] (row.id ∷ []) plan
      → Checked [] [] (record plan { groups = push plan.groups row })
  group-Checked plan row valid c = record {
    policies = c.policies;
    groups = All-push _ plan.groups row c.groups valid;
    users = c.users;
    memberships = c.memberships;
    user_policies = c.user_policies;
    group_policies =
        All-weaken _ _ (λ a h. (h.0, IsIn-push (λ g. g.id) plan.groups row a.0 h.1))
          plan.group_policies c.group_policies;
    credentials = c.credentials;
  }

  reading_group :
      (group_id : Text) (plan : BootstrapPlan T)
      → Checked [] [] plan
      → Checked [] (group_id ∷ []) plan
  reading_group group_id plan c = record {
    policies = c.policies;
    groups = c.groups;
    users = c.users;
    memberships = c.memberships;
    user_policies = c.user_policies;
    group_policies =
        All-weaken _ _ (λ a h. (h.0, IsIn-cons group_id (group_ids plan) a.0 h.1))
          plan.group_policies c.group_policies;
    credentials = c.credentials;
  }

  pub add_group-Keeps :
      (now : T) (spec : GroupSpec) (plan after : BootstrapPlan T)
      → add_group now spec plan ≡ ok after
      → Checked [] [] plan
      → Checked [] [] after
  unfolding add_group validated_group
  add_group-Keeps now spec plan after h c =
      let (attached, looped, read) =
        bind-ok (for_each (add_group_policy spec.id) spec.policies plan) _ after h in
      let (row, checked, done) =
        bind-ok (anyhow (validated_group spec.id spec.description now)) _ after read in
      let (valid, made) =
        checked-ok (validate_entity_id "group" spec.id) _ row (anyhow-ok _ row checked) in
      let same : record attached { groups = push attached.groups row } ≡ after = cc in
      let kept =
        for_each-Keeps (Checked [] (spec.id ∷ [])) (add_group_policy spec.id)
          (add_group_policy-Keeps spec.id) spec.policies plan attached looped
          (reading_group spec.id plan c) in
      rw (← same, ← made) (group-Checked attached _ valid kept)
