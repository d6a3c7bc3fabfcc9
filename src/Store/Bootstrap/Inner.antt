-- ===== src/Store/Bootstrap/Inner.antt =====
-- crates/lakefs-authz/src/store/mem.rs: `impl BootstrapWriter for Inner`, and the bootstrap of the
-- store in memory.
use lakefs_auth.Common.{Bool, true, false, not, Option, none, some, if◌then◌else◌}
use lakefs_auth.Std.Order.{Text, text_ord, pair_ord}
use lakefs_auth.Std.BTreeMap.{get, contains_key, insert}
use lakefs_auth.Std.Result.{ok, err, ◌>>◌}
use lakefs_auth.Store.Error.{StoreResult}
use lakefs_auth.Store.Types.{
  UserRecord, NewUser, NewGroup, NewPolicy, CredentialRecord, NewCredential, BootstrapPlan,
  BootstrapReport,
}
use lakefs_auth.Store.Mem.Inner.{
  Inner, insert_user, insert_group, insert_policy, insert_credential, require_user, require_group,
  require_policy, checked,
}
use lakefs_auth.Store.Bootstrap.{Write, BootstrapWriter, continue, apply_plan}

module _ {T : Type 0} where
  -- `self.insert_…(entry)?;` and then an answer that does not depend on the row
  abbrev pub answer : {A B : Type 0} → B → StoreResult A × Inner T → StoreResult B × Inner T
  answer b r = continue (λ _ s. (ok b, s)) r

  unfoldable pub insert_policy_if_missing : NewPolicy T → Write (Inner T) Bool
  unfolding insert_policy
  insert_policy_if_missing policy s =
      if contains_key policy.name s.policies
      then (ok false, s)
      else answer true (insert_policy policy s)

  unfoldable pub insert_group_if_missing : NewGroup T → Write (Inner T) Bool
  unfolding insert_group
  insert_group_if_missing group s =
      if contains_key group.id s.groups then (ok false, s) else answer true (insert_group group s)

  unfoldable pub insert_user_if_missing : NewUser T → Write (Inner T) (Option (UserRecord T))
  unfolding insert_user
  insert_user_if_missing user s = elim (get user.username s.users) [
    | some existing ↦ (ok (some existing), s)
    | none ↦ answer none (insert_user user s)
  ]

  unfoldable pub insert_membership_if_missing : Text → Text → Write (Inner T) Bool
  unfolding require_group require_user
  insert_membership_if_missing group_id username s =
      checked s (require_group s group_id >> require_user s username) λ _. (
        not (contains_key (group_id, username) s.group_members),
        record s { group_members = insert (group_id, username) tt s.group_members },
      )

  unfoldable pub insert_user_policy_if_missing : Text → Text → Write (Inner T) Bool
  unfolding require_user require_policy
  insert_user_policy_if_missing username policy s =
      checked s (require_user s username >> require_policy s policy) λ _. (
        not (contains_key (username, policy) s.user_policies),
        record s { user_policies = insert (username, policy) tt s.user_policies },
      )

  unfoldable pub insert_group_policy_if_missing : Text → Text → Write (Inner T) Bool
  unfolding require_group require_policy
  insert_group_policy_if_missing group_id policy s =
      checked s (require_group s group_id >> require_policy s policy) λ _. (
        not (contains_key (group_id, policy) s.group_policies),
        record s { group_policies = insert (group_id, policy) tt s.group_policies },
      )

  unfoldable pub insert_credential_if_missing :
      NewCredential T → Write (Inner T) (Option (CredentialRecord T))
  unfolding insert_credential
  insert_credential_if_missing credential s = elim (get credential.access_key_id s.credentials) [
    | some existing ↦ (ok (some existing), s)
    | none ↦ answer none (insert_credential credential s)
  ]

abbrev pub inner_writer : (T : Type 0) → BootstrapWriter T (Inner T)
inner_writer T = record {
  insert_policy_if_missing = insert_policy_if_missing;
  insert_group_if_missing = insert_group_if_missing;
  insert_user_if_missing = insert_user_if_missing;
  insert_membership_if_missing = insert_membership_if_missing;
  insert_user_policy_if_missing = insert_user_policy_if_missing;
  insert_group_policy_if_missing = insert_group_policy_if_missing;
  insert_credential_if_missing = insert_credential_if_missing;
}

-- The staged copy is swapped in if the plan ran to its end.
abbrev pub swap_in : {A S : Type 0} → S → StoreResult A × S → StoreResult A × S
swap_in before (err e, staged) = (err e, before)
swap_in before (ok report, staged) = (ok report, staged)

-- `MemStore::apply_bootstrap`
unfoldable pub apply_bootstrap :
    {T : Type 0} → BootstrapPlan T → Inner T → StoreResult BootstrapReport × Inner T
unfolding apply_plan
apply_bootstrap {T} plan s = swap_in s (apply_plan (inner_writer T) plan s)
