-- ===== src/Store/Mem/Invariant/Reach.antt =====
-- Every call that holds the write lock keeps the store valid, so every history of such calls does.
use lakefs_auth.Common.{Bool, List, [], ◌∷◌, arith}
use lakefs_auth.Std.BTreeMap.{get}
use lakefs_auth.Store.Mem.Inner.{Inner, default}
use lakefs_auth.Store.Mem.Calls.{
  Call, run, run_all, create_user, delete_user, set_friendly_name, create_group, delete_group,
  add_membership, remove_membership, create_policy, update_policy, delete_policy,
  attach_policy_to_user, detach_policy_from_user, attach_policy_to_group, detach_policy_from_group,
  create_credential, delete_credential, create_external_principal, delete_external_principal,
  claim_token_id, delete_expired_token_ids,
}
use lakefs_auth.Store.Mem.Groups
use lakefs_auth.Store.Mem.Policies
use lakefs_auth.Store.Mem.Credentials
use lakefs_auth.Store.Mem.Invariant.Deletes
use lakefs_auth.Store.Mem.Invariant.Inserts
use lakefs_auth.Store.Mem.Invariant.Rows
use lakefs_auth.Store.Mem.Invariant.Links
use lakefs_auth.Store.Mem.Invariant.Keys
use lakefs_auth.Store.Mem.Invariant.Unique.{
  create_user-IsUnique, set_friendly_name-IsUnique, delete_user-IsUnique, same_users-IsUnique,
}
use lakefs_auth.Store.Mem.Invariant.{IsOrdered, IsKeyed, IsReferenced, IsUnique, IsValid}

module _ {T : Type 0} (later : T → T → Bool) where
  run-IsOrdered : (c : Call T) (s : Inner T) → IsValid s → IsOrdered (run later c s)
  unfolding run
  run-IsOrdered (create_user a) s i = Inserts.create_user-IsOrdered a s i.ordered
  run-IsOrdered (delete_user a) s i = Deletes.delete_user-IsOrdered a s i.ordered
  run-IsOrdered (set_friendly_name a b) s i = Inserts.set_friendly_name-IsOrdered a b s i.ordered
  run-IsOrdered (create_group a) s i = Inserts.create_group-IsOrdered a s i.ordered
  run-IsOrdered (delete_group a) s i = Deletes.delete_group-IsOrdered a s i.ordered
  run-IsOrdered (add_membership a b) s i = Links.add_membership-IsOrdered a b s i.ordered
  run-IsOrdered (remove_membership a b) s i = Links.remove_membership-IsOrdered a b s i.ordered
  run-IsOrdered (create_policy a) s i = Rows.create_policy-IsOrdered a s i.ordered
  run-IsOrdered (update_policy a) s i = Rows.update_policy-IsOrdered a s i.ordered
  run-IsOrdered (delete_policy a) s i = Deletes.delete_policy-IsOrdered a s i.ordered
  run-IsOrdered (attach_policy_to_user a b) s i =
      Links.attach_policy_to_user-IsOrdered a b s i.ordered
  run-IsOrdered (detach_policy_from_user a b) s i =
      Links.detach_policy_from_user-IsOrdered a b s i.ordered
  run-IsOrdered (attach_policy_to_group a b) s i =
      Links.attach_policy_to_group-IsOrdered a b s i.ordered
  run-IsOrdered (detach_policy_from_group a b) s i =
      Links.detach_policy_from_group-IsOrdered a b s i.ordered
  run-IsOrdered (create_credential a) s i = Rows.create_credential-IsOrdered a s i.ordered
  run-IsOrdered (delete_credential a b) s i = Keys.delete_credential-IsOrdered a b s i.ordered
  run-IsOrdered (create_external_principal a b) s i =
      Rows.create_external_principal-IsOrdered a b s i.ordered
  run-IsOrdered (delete_external_principal a b) s i =
      Keys.delete_external_principal-IsOrdered a b s i.ordered
  run-IsOrdered (claim_token_id a b) s i = Keys.claim_token_id-IsOrdered a b s i.ordered
  run-IsOrdered (delete_expired_token_ids a) s i =
      Keys.delete_expired_token_ids-IsOrdered later a s i.ordered

  run-IsKeyed : (c : Call T) (s : Inner T) → IsValid s → IsKeyed (run later c s)
  unfolding run
  run-IsKeyed (create_user a) s i = Inserts.create_user-IsKeyed a s i.keyed
  run-IsKeyed (delete_user a) s i = Deletes.delete_user-IsKeyed a s i.ordered i.keyed
  run-IsKeyed (set_friendly_name a b) s i = Inserts.set_friendly_name-IsKeyed a b s i.keyed
  run-IsKeyed (create_group a) s i = Inserts.create_group-IsKeyed a s i.keyed
  run-IsKeyed (delete_group a) s i = Deletes.delete_group-IsKeyed a s i.ordered i.keyed
  run-IsKeyed (add_membership a b) s i = Links.add_membership-IsKeyed a b s i.keyed
  run-IsKeyed (remove_membership a b) s i = Links.remove_membership-IsKeyed a b s i.keyed
  run-IsKeyed (create_policy a) s i = Rows.create_policy-IsKeyed a s i.keyed
  run-IsKeyed (update_policy a) s i = Rows.update_policy-IsKeyed a s i.keyed
  run-IsKeyed (delete_policy a) s i = Deletes.delete_policy-IsKeyed a s i.ordered i.keyed
  run-IsKeyed (attach_policy_to_user a b) s i = Links.attach_policy_to_user-IsKeyed a b s i.keyed
  run-IsKeyed (detach_policy_from_user a b) s i =
      Links.detach_policy_from_user-IsKeyed a b s i.keyed
  run-IsKeyed (attach_policy_to_group a b) s i = Links.attach_policy_to_group-IsKeyed a b s i.keyed
  run-IsKeyed (detach_policy_from_group a b) s i =
      Links.detach_policy_from_group-IsKeyed a b s i.keyed
  run-IsKeyed (create_credential a) s i = Rows.create_credential-IsKeyed a s i.keyed
  run-IsKeyed (delete_credential a b) s i = Keys.delete_credential-IsKeyed a b s i.ordered i.keyed
  run-IsKeyed (create_external_principal a b) s i =
      Rows.create_external_principal-IsKeyed a b s i.keyed
  run-IsKeyed (delete_external_principal a b) s i =
      Keys.delete_external_principal-IsKeyed a b s i.ordered i.keyed
  run-IsKeyed (claim_token_id a b) s i = Keys.claim_token_id-IsKeyed a b s i.keyed
  run-IsKeyed (delete_expired_token_ids a) s i =
      Keys.delete_expired_token_ids-IsKeyed later a s i.keyed

  run-IsReferenced : (c : Call T) (s : Inner T) → IsValid s → IsReferenced (run later c s)
  unfolding run
  run-IsReferenced (create_user a) s i = Inserts.create_user-IsReferenced a s i.referenced
  run-IsReferenced (delete_user a) s i = Deletes.delete_user-IsReferenced a s i.ordered i.referenced
  run-IsReferenced (set_friendly_name a b) s i =
      Inserts.set_friendly_name-IsReferenced a b s i.referenced
  run-IsReferenced (create_group a) s i = Inserts.create_group-IsReferenced a s i.referenced
  run-IsReferenced (delete_group a) s i =
      Deletes.delete_group-IsReferenced a s i.ordered i.referenced
  run-IsReferenced (add_membership a b) s i = Links.add_membership-IsReferenced a b s i.referenced
  run-IsReferenced (remove_membership a b) s i =
      Links.remove_membership-IsReferenced a b s i.ordered i.referenced
  run-IsReferenced (create_policy a) s i = Rows.create_policy-IsReferenced a s i.referenced
  run-IsReferenced (update_policy a) s i = Rows.update_policy-IsReferenced a s i.referenced
  run-IsReferenced (delete_policy a) s i =
      Deletes.delete_policy-IsReferenced a s i.ordered i.referenced
  run-IsReferenced (attach_policy_to_user a b) s i =
      Links.attach_policy_to_user-IsReferenced a b s i.referenced
  run-IsReferenced (detach_policy_from_user a b) s i =
      Links.detach_policy_from_user-IsReferenced a b s i.ordered i.referenced
  run-IsReferenced (attach_policy_to_group a b) s i =
      Links.attach_policy_to_group-IsReferenced a b s i.referenced
  run-IsReferenced (detach_policy_from_group a b) s i =
      Links.detach_policy_from_group-IsReferenced a b s i.ordered i.referenced
  run-IsReferenced (create_credential a) s i = Rows.create_credential-IsReferenced a s i.referenced
  run-IsReferenced (delete_credential a b) s i =
      Keys.delete_credential-IsReferenced a b s i.ordered i.referenced
  run-IsReferenced (create_external_principal a b) s i =
      Rows.create_external_principal-IsReferenced a b s i.referenced
  run-IsReferenced (delete_external_principal a b) s i =
      Keys.delete_external_principal-IsReferenced a b s i.ordered i.referenced
  run-IsReferenced (claim_token_id a b) s i = Keys.claim_token_id-IsReferenced a b s i.referenced
  run-IsReferenced (delete_expired_token_ids a) s i =
      Keys.delete_expired_token_ids-IsReferenced later a s i.referenced

  run-IsUnique : (c : Call T) (s : Inner T) → IsValid s → IsUnique (run later c s)
  unfolding run
  run-IsUnique (create_user a) s i = create_user-IsUnique a s i.unique
  run-IsUnique (delete_user a) s i = delete_user-IsUnique a s i.ordered i.unique
  run-IsUnique (set_friendly_name a b) s i = set_friendly_name-IsUnique a b s i.unique
  run-IsUnique (create_group a) s i =
      same_users-IsUnique s _ (unfold Groups.create_group in ground arith) i.unique
  run-IsUnique (delete_group a) s i =
      same_users-IsUnique s _ (unfold Groups.delete_group in ground arith) i.unique
  run-IsUnique (add_membership a b) s i =
      same_users-IsUnique s _ (unfold Groups.add_membership in ground arith) i.unique
  run-IsUnique (remove_membership a b) s i =
      same_users-IsUnique s _ (unfold Groups.remove_membership in ground arith) i.unique
  run-IsUnique (create_policy a) s i =
      same_users-IsUnique s _ (unfold Policies.create_policy in ground arith) i.unique
  run-IsUnique (update_policy a) s i =
      same_users-IsUnique s _ (unfold Policies.update_policy in ground arith) i.unique
  run-IsUnique (delete_policy a) s i =
      same_users-IsUnique s _ (unfold Policies.delete_policy in ground arith) i.unique
  run-IsUnique (attach_policy_to_user a b) s i =
      same_users-IsUnique s _ (unfold Policies.attach_policy_to_user in ground arith) i.unique
  run-IsUnique (detach_policy_from_user a b) s i =
      same_users-IsUnique s _ (unfold Policies.detach_policy_from_user in ground arith) i.unique
  run-IsUnique (attach_policy_to_group a b) s i =
      same_users-IsUnique s _ (unfold Policies.attach_policy_to_group in ground arith) i.unique
  run-IsUnique (detach_policy_from_group a b) s i =
      same_users-IsUnique s _ (unfold Policies.detach_policy_from_group in ground arith) i.unique
  run-IsUnique (create_credential a) s i =
      same_users-IsUnique s _ (unfold Credentials.create_credential in ground arith) i.unique
  run-IsUnique (delete_credential a b) s i =
      same_users-IsUnique s _ (unfold Credentials.delete_credential in ground arith) i.unique
  run-IsUnique (create_external_principal a b) s i =
      same_users-IsUnique s _ (unfold Credentials.create_external_principal in ground arith)
        i.unique
  run-IsUnique (delete_external_principal a b) s i =
      same_users-IsUnique s _ (unfold Credentials.delete_external_principal in ground arith)
        i.unique
  run-IsUnique (claim_token_id a b) s i =
      same_users-IsUnique s _ (unfold Credentials.claim_token_id in ground arith) i.unique
  run-IsUnique (delete_expired_token_ids a) s i =
      same_users-IsUnique s _ (unfold Credentials.delete_expired_token_ids in ground arith) i.unique

  -- Each of these calls keeps the store valid, whether it succeeds or fails.
  pub run-IsValid : (c : Call T) (s : Inner T) → IsValid s → IsValid (run later c s)
  run-IsValid c s i = record {
    ordered = run-IsOrdered c s i;
    keyed = run-IsKeyed c s i;
    referenced = run-IsReferenced c s i;
    unique = run-IsUnique c s i;
  }

  pub run_all-IsValid :
      (cs : List (Call T)) (s : Inner T) → IsValid s → IsValid (run_all later cs s)
  unfolding run_all
  run_all-IsValid [] s i = i
  run_all-IsValid (c ∷ cs) s i = run_all-IsValid cs (run later c s) (run-IsValid c s i)

pub default-IsValid : (T : Type 0) → IsValid (default T)
unfolding get
default-IsValid T = record {
  ordered = ground arith;
  keyed = record {
    users = λ k u h. cc;
    groups = λ k g h. cc;
    policies = λ k p h. cc;
    credentials = λ k c h. cc;
    external_principals = λ k p h. cc;
  };
  referenced = record {
    group_members = λ g u h. cc;
    user_policies = λ u p h. cc;
    group_policies = λ g p h. cc;
    credentials = λ k c h. cc;
    external_principals = λ k p h. cc;
  };
  unique = record {
    assigned = λ k u h. cc;
    user_ids = λ j k u v h. cc;
    emails = λ j k u v e h. cc;
    external_ids = λ j k u v e h. cc;
  };
}

-- Whatever calls that write are made of a new store, a bootstrap apart, in whatever order, afterwards the tables are ordered by
-- unique keys, each row stands under its own key, each membership, attachment, credential and
-- external principal names rows that exist, a credential carries the id of its user, and no two
-- users share an id, an email or an external id.
pub history-IsValid :
    {T : Type 0} (later : T → T → Bool) (cs : List (Call T))
    → IsValid (run_all later cs (default T))
history-IsValid {T} later cs = run_all-IsValid later cs (default T) (default-IsValid T)
