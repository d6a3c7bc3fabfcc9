-- ===== src/Store/Mem/Invariant/Keys.antt =====
-- Rows that are deleted or claimed by their own key: credentials, external principals, token ids.
use lakefs_auth.Common.{refl, Bool, arith}
use lakefs_auth.Std.Order.{Text, text_ord, pair_ord}
use lakefs_auth.Std.BTreeMap.Laws.{get-remove, insert-IsSorted, remove-IsSorted, retain-IsSorted}
use lakefs_auth.Store.Mem.Inner.{Inner}
use lakefs_auth.Store.Mem.Credentials.{
  delete_credential, delete_external_principal, claim_token_id, delete_expired_token_ids,
}
use lakefs_auth.Store.Mem.Invariant.{IsOrdered, IsKeyed, IsReferenced, same_tables-IsKeyed}

module _ {T : Type 0} (username access_key_id : Text) (s : Inner T) (o : IsOrdered s) where
  pub delete_credential-IsOrdered : IsOrdered (delete_credential username access_key_id s).1
  unfolding delete_credential
  delete_credential-IsOrdered = ground (arith, remove-IsSorted access_key_id s.credentials)

  pub delete_credential-IsKeyed : IsKeyed s → IsKeyed (delete_credential username access_key_id s).1
  unfolding delete_credential
  delete_credential-IsKeyed r = record {
    users = λ k u h. ground (arith, r.users k u);
    groups = λ k g h. ground (arith, r.groups k g);
    policies = λ k p h. ground (arith, r.policies k p);
    credentials = λ k c h.
        ground (arith, r.credentials k c, get-remove k access_key_id s.credentials o.credentials);
    external_principals = λ k p h. ground (arith, r.external_principals k p);
  }

  pub delete_credential-IsReferenced :
      IsReferenced s → IsReferenced (delete_credential username access_key_id s).1
  unfolding delete_credential
  delete_credential-IsReferenced r = record {
    group_members = λ g u h. ground (arith, r.group_members g u);
    user_policies = λ u p h. ground (arith, r.user_policies u p);
    group_policies = λ g p h. ground (arith, r.group_policies g p);
    credentials = λ k c h.
        ground (arith, r.credentials k c, get-remove k access_key_id s.credentials o.credentials);
    external_principals = λ k p h. ground (arith, r.external_principals k p);
  }

module _ {T : Type 0} (username principal_id : Text) (s : Inner T) (o : IsOrdered s) where
  pub delete_external_principal-IsOrdered :
      IsOrdered (delete_external_principal username principal_id s).1
  unfolding delete_external_principal
  delete_external_principal-IsOrdered =
      ground (arith, remove-IsSorted principal_id s.external_principals)

  pub delete_external_principal-IsKeyed :
      IsKeyed s → IsKeyed (delete_external_principal username principal_id s).1
  unfolding delete_external_principal
  delete_external_principal-IsKeyed r = record {
    users = λ k u h. ground (arith, r.users k u);
    groups = λ k g h. ground (arith, r.groups k g);
    policies = λ k p h. ground (arith, r.policies k p);
    credentials = λ k c h. ground (arith, r.credentials k c);
    external_principals = λ k p h. ground (
      arith,
      r.external_principals k p,
      get-remove k principal_id s.external_principals o.external_principals,
    );
  }

  pub delete_external_principal-IsReferenced :
      IsReferenced s → IsReferenced (delete_external_principal username principal_id s).1
  unfolding delete_external_principal
  delete_external_principal-IsReferenced r = record {
    group_members = λ g u h. ground (arith, r.group_members g u);
    user_policies = λ u p h. ground (arith, r.user_policies u p);
    group_policies = λ g p h. ground (arith, r.group_policies g p);
    credentials = λ k c h. ground (arith, r.credentials k c);
    external_principals = λ k p h. ground (
      arith,
      r.external_principals k p,
      get-remove k principal_id s.external_principals o.external_principals,
    );
  }

module _ {T : Type 0} (token_id : Text) (expires_at : T) (s : Inner T) where
  pub claim_token_id-IsOrdered : IsOrdered s → IsOrdered (claim_token_id token_id expires_at s).1
  unfolding claim_token_id
  claim_token_id-IsOrdered o =
      ground (arith, insert-IsSorted token_id expires_at s.claimed_token_ids)

  pub claim_token_id-IsKeyed : IsKeyed s → IsKeyed (claim_token_id token_id expires_at s).1
  unfolding claim_token_id
  claim_token_id-IsKeyed r = same_tables-IsKeyed s _ (ground arith) r

  pub claim_token_id-IsReferenced :
      IsReferenced s → IsReferenced (claim_token_id token_id expires_at s).1
  unfolding claim_token_id
  claim_token_id-IsReferenced r = record {
    group_members = λ g u h. ground (arith, r.group_members g u);
    user_policies = λ u p h. ground (arith, r.user_policies u p);
    group_policies = λ g p h. ground (arith, r.group_policies g p);
    credentials = λ k c h. ground (arith, r.credentials k c);
    external_principals = λ k p h. ground (arith, r.external_principals k p);
  }

module _ {T : Type 0} (later : T → T → Bool) (now : T) (s : Inner T) where
  pub delete_expired_token_ids-IsOrdered :
      IsOrdered s → IsOrdered (delete_expired_token_ids later now s).1
  unfolding delete_expired_token_ids
  delete_expired_token_ids-IsOrdered o =
      ground (arith, retain-IsSorted (λ _ expires. later expires now) s.claimed_token_ids)

  pub delete_expired_token_ids-IsKeyed :
      IsKeyed s → IsKeyed (delete_expired_token_ids later now s).1
  unfolding delete_expired_token_ids
  delete_expired_token_ids-IsKeyed r = same_tables-IsKeyed s _ (refl, refl, refl, refl, refl) r

  pub delete_expired_token_ids-IsReferenced :
      IsReferenced s → IsReferenced (delete_expired_token_ids later now s).1
  unfolding delete_expired_token_ids
  delete_expired_token_ids-IsReferenced r = record {
    group_members = λ g u h. ground (arith, r.group_members g u);
    user_policies = λ u p h. ground (arith, r.user_policies u p);
    group_policies = λ g p h. ground (arith, r.group_policies g p);
    credentials = λ k c h. ground (arith, r.credentials k c);
    external_principals = λ k p h. ground (arith, r.external_principals k p);
  }
