-- ===== src/Store/Mem/Effects.antt =====
-- What a call of the store in memory does to what a later call reads.
use lakefs_auth.Common.{not, ◌≡◌, false, some, arith}
use lakefs_auth.Std.Order.{Text, text_ord, pair_ord, ◌==◌}
use lakefs_auth.Std.BTreeMap.{get, contains_key}
use lakefs_auth.Std.BTreeMap.Laws.{get-remove, get-retain}
use lakefs_auth.Std.Result.{ok, err}
use lakefs_auth.Store.Error.{not_found}
use lakefs_auth.Store.Types.{CredentialRecord, ExternalPrincipalRecord}
use lakefs_auth.Store.Mem.Inner.{Inner}
use lakefs_auth.Store.Mem.Users.{get_user, delete_user}
use lakefs_auth.Store.Mem.Invariant.{IsOrdered}

module _ {T : Type 0} where
  abbrev pub IsForgotten : Text → Inner T → Type 0
  IsForgotten username s =
      (get_user username s ≡ err (not_found "user" username))
      × ((group_id : Text) → contains_key (group_id, username) s.group_members ≡ false)
      × ((policy : Text) → contains_key (username, policy) s.user_policies ≡ false)
      × ((key : Text) (c : CredentialRecord T)
          → get key s.credentials ≡ some c
          → (c.username == username) ≡ false)
      × ((key : Text) (p : ExternalPrincipalRecord)
          → get key s.external_principals ≡ some p
          → (p.username == username) ≡ false)

  -- A user that is deleted is gone, with its memberships, its attachments, its
  -- credentials and its external principals, from a store in order.
  pub delete_user-IsForgotten :
      (username : Text) (s : Inner T)
      → IsOrdered s
      → (delete_user username s).0 ≡ ok tt
      → IsForgotten username (delete_user username s).1
  unfolding delete_user get_user
  delete_user-IsForgotten username s o h = (
    ground (arith, h, get-remove username username s.users, o.users, text_ord.cmp_self username),
    λ group_id. ground (
      arith,
      h,
      get-retain (λ k _. not (k.1 == username)) (group_id, username) s.group_members,
      o.group_members,
      text_ord.cmp_self username,
    ),
    λ policy. ground (
      arith,
      h,
      get-retain (λ k _. not (k.0 == username)) (username, policy) s.user_policies,
      o.user_policies,
      text_ord.cmp_self username,
    ),
    λ key c e. ground (
      arith,
      h,
      e,
      get-retain (λ _ c. not (c.username == username)) key s.credentials,
      o.credentials,
    ),
    λ key p e. ground (
      arith,
      h,
      e,
      get-retain (λ _ p. not (p.username == username)) key s.external_principals,
      o.external_principals,
    ),
  )
