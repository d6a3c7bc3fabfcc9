-- ===== src/Store/Mem/Invariant/Rows.antt =====
-- The creates and updates of policies, credentials and external principals keep the order of the
-- tables and the references.
use lakefs_auth.Common.{ℕ, arith}
use lakefs_auth.Std.Order.{Text, text_ord, pair_ord}
use lakefs_auth.Std.BTreeMap.Laws.{get-insert, insert-IsSorted}
use lakefs_auth.Store.Types.{
  PolicyRecord, NewPolicy, CredentialRecord, NewCredential, ExternalPrincipalRecord,
}
use lakefs_auth.Store.Mem.Inner.{Inner}
use lakefs_auth.Store.Mem.Policies.{create_policy, update_policy}
use lakefs_auth.Store.Mem.Credentials.{create_credential, create_external_principal}
use lakefs_auth.Store.Mem.Invariant.{IsOrdered, IsKeyed, IsReferenced}

module _ {T : Type 0} (policy : NewPolicy T) (s : Inner T) where
  abbrev policy_row : PolicyRecord T
  policy_row = record {
    name = policy.name;
    creation_date = policy.creation_date;
    statement = policy.statement;
    acl = policy.acl;
  }

  pub create_policy-IsOrdered : IsOrdered s → IsOrdered (create_policy policy s).1
  unfolding create_policy
  create_policy-IsOrdered o = ground (arith, insert-IsSorted policy.name policy_row s.policies)

  pub create_policy-IsKeyed : IsKeyed s → IsKeyed (create_policy policy s).1
  unfolding create_policy
  create_policy-IsKeyed r = record {
    users = λ k u h. ground (arith, r.users k u);
    groups = λ k g h. ground (arith, r.groups k g);
    policies = λ k p h. ground (
      arith,
      r.policies k p,
      get-insert k policy.name policy_row s.policies,
      text_ord.eq_of policy.name k,
    );
    credentials = λ k c h. ground (arith, r.credentials k c);
    external_principals = λ k p h. ground (arith, r.external_principals k p);
  }

  pub create_policy-IsReferenced : IsReferenced s → IsReferenced (create_policy policy s).1
  unfolding create_policy
  create_policy-IsReferenced r = record {
    group_members = λ g u h. ground (arith, r.group_members g u);
    user_policies = λ u p h.
        ground (arith, r.user_policies u p, get-insert p policy.name policy_row s.policies);
    group_policies = λ g p h.
        ground (arith, r.group_policies g p, get-insert p policy.name policy_row s.policies);
    credentials = λ k c h. ground (arith, r.credentials k c);
    external_principals = λ k p h. ground (arith, r.external_principals k p);
  }

  -- `update_policy` keeps the name of the slot.
  abbrev updated : PolicyRecord T → PolicyRecord T
  updated slot = record slot {
    creation_date = policy.creation_date;
    statement = policy.statement;
    acl = policy.acl;
  }

  pub update_policy-IsOrdered : IsOrdered s → IsOrdered (update_policy policy s).1
  unfolding update_policy
  update_policy-IsOrdered o =
      grind (arith, λ (v : PolicyRecord T). insert-IsSorted policy.name (updated v) s.policies)

  pub update_policy-IsKeyed : IsKeyed s → IsKeyed (update_policy policy s).1
  unfolding update_policy
  update_policy-IsKeyed r = record {
    users = λ k u h. grind (arith, r.users k u);
    groups = λ k g h. grind (arith, r.groups k g);
    policies = λ k p h. grind (
      arith,
      r.policies k p,
      λ (v : PolicyRecord T). r.policies policy.name v,
      λ (v : PolicyRecord T). get-insert k policy.name (updated v) s.policies,
      text_ord.eq_of policy.name k,
    );
    credentials = λ k c h. grind (arith, r.credentials k c);
    external_principals = λ k p h. grind (arith, r.external_principals k p);
  }

  pub update_policy-IsReferenced : IsReferenced s → IsReferenced (update_policy policy s).1
  unfolding update_policy
  update_policy-IsReferenced r = record {
    group_members = λ g u h. grind (arith, r.group_members g u);
    user_policies = λ u p h. grind (
      arith,
      r.user_policies u p,
      λ (v : PolicyRecord T). get-insert p policy.name (updated v) s.policies,
    );
    group_policies = λ g p h. grind (
      arith,
      r.group_policies g p,
      λ (v : PolicyRecord T). get-insert p policy.name (updated v) s.policies,
    );
    credentials = λ k c h. grind (arith, r.credentials k c);
    external_principals = λ k p h. grind (arith, r.external_principals k p);
  }

module _ {T : Type 0} (credential : NewCredential T) (s : Inner T) where
  abbrev credential_row : ℕ → CredentialRecord T
  credential_row user_id = record {
    access_key_id = credential.access_key_id;
    username = credential.username;
    user_id = user_id;
    secret_ciphertext = credential.secret_ciphertext;
    creation_date = credential.creation_date;
  }

  pub create_credential-IsOrdered : IsOrdered s → IsOrdered (create_credential credential s).1
  unfolding create_credential
  create_credential-IsOrdered o =
      grind (
        arith,
        λ (n : ℕ). insert-IsSorted credential.access_key_id (credential_row n) s.credentials,
      )

  pub create_credential-IsKeyed : IsKeyed s → IsKeyed (create_credential credential s).1
  unfolding create_credential
  create_credential-IsKeyed r = record {
    users = λ k u h. grind (arith, r.users k u);
    groups = λ k g h. grind (arith, r.groups k g);
    policies = λ k p h. grind (arith, r.policies k p);
    credentials = λ k c h. grind (
      arith,
      r.credentials k c,
      λ (n : ℕ). get-insert k credential.access_key_id (credential_row n) s.credentials,
      text_ord.eq_of credential.access_key_id k,
    );
    external_principals = λ k p h. grind (arith, r.external_principals k p);
  }

  pub create_credential-IsReferenced :
      IsReferenced s → IsReferenced (create_credential credential s).1
  unfolding create_credential
  create_credential-IsReferenced r = record {
    group_members = λ g u h. grind (arith, r.group_members g u);
    user_policies = λ u p h. grind (arith, r.user_policies u p);
    group_policies = λ g p h. grind (arith, r.group_policies g p);
    credentials = λ k c h. grind (
      arith,
      r.credentials k c,
      λ (n : ℕ). get-insert k credential.access_key_id (credential_row n) s.credentials,
    );
    external_principals = λ k p h. grind (arith, r.external_principals k p);
  }

module _ {T : Type 0} (username principal_id : Text) (s : Inner T) where
  abbrev principal_row : ExternalPrincipalRecord
  principal_row = record { id = principal_id; username = username }

  pub create_external_principal-IsOrdered :
      IsOrdered s → IsOrdered (create_external_principal username principal_id s).1
  unfolding create_external_principal
  create_external_principal-IsOrdered o =
      ground (arith, insert-IsSorted principal_id principal_row s.external_principals)

  pub create_external_principal-IsKeyed :
      IsKeyed s → IsKeyed (create_external_principal username principal_id s).1
  unfolding create_external_principal
  create_external_principal-IsKeyed r = record {
    users = λ k u h. ground (arith, r.users k u);
    groups = λ k g h. ground (arith, r.groups k g);
    policies = λ k p h. ground (arith, r.policies k p);
    credentials = λ k c h. ground (arith, r.credentials k c);
    external_principals = λ k p h. ground (
      arith,
      r.external_principals k p,
      get-insert k principal_id principal_row s.external_principals,
      text_ord.eq_of principal_id k,
    );
  }

  pub create_external_principal-IsReferenced :
      IsReferenced s → IsReferenced (create_external_principal username principal_id s).1
  unfolding create_external_principal
  create_external_principal-IsReferenced r = record {
    group_members = λ g u h. ground (arith, r.group_members g u);
    user_policies = λ u p h. ground (arith, r.user_policies u p);
    group_policies = λ g p h. ground (arith, r.group_policies g p);
    credentials = λ k c h. ground (arith, r.credentials k c);
    external_principals = λ k p h. ground (
      arith,
      r.external_principals k p,
      get-insert k principal_id principal_row s.external_principals,
    );
  }
