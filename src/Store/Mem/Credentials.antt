-- ===== src/Store/Mem/Credentials.antt =====
-- `CredentialStore`, `ExternalPrincipalStore` and `TokenIdStore` for `MemStore`
use lakefs_auth.Common.{ℕ, ◌-◌, Bool, false, not, Option, none, some, filter, length, if◌then◌else◌}
use lakefs_auth.Std.Order.{Text, text_ord, ◌==◌}
use lakefs_auth.Std.BTreeMap.{get, contains_key, insert, remove, retain}
use lakefs_auth.Std.Result.{ok, err, ok_or, ◌>>◌}
use lakefs_auth.Core.Pagination.{PageQuery, PageOf, page_sorted}
use lakefs_auth.Store.Error.{StoreResult, not_found, already_exists}
use lakefs_auth.Store.Types.{CredentialRecord, NewCredential, ExternalPrincipalRecord}
use lakefs_auth.Store.Mem.Inner.{Inner, insert_credential, checked, require_user}

-- `Option::filter` and `Option::is_some_and`
abbrev pub filter_option {ℓ} : {A : Type ℓ} → (A → Bool) → Option A → Option A
filter_option p none = none
filter_option p (some a) = if p a then some a else none

abbrev pub is_some_and {ℓ} : {A : Type ℓ} → (A → Bool) → Option A → Bool
is_some_and p none = false
is_some_and p (some a) = p a

module _ {T : Type 0} where
  unfoldable pub create_credential :
      NewCredential T → Inner T → StoreResult (CredentialRecord T) × Inner T
  unfolding insert_credential
  create_credential credential s = insert_credential credential s

  unfoldable pub get_credential : Text → Inner T → StoreResult (CredentialRecord T)
  get_credential access_key_id s =
      ok_or (not_found "credentials" access_key_id) (get access_key_id s.credentials)

  unfoldable pub get_user_credential : Text → Text → Inner T → StoreResult (CredentialRecord T)
  get_user_credential username access_key_id s =
      ok_or (not_found "credentials" access_key_id)
        (filter_option (λ c. c.username == username) (get access_key_id s.credentials))

  unfoldable pub delete_credential : Text → Text → Inner T → StoreResult (Unit {0}) × Inner T
  delete_credential username access_key_id s =
      let owned = is_some_and (λ c. c.username == username) (get access_key_id s.credentials) in
      if not owned
      then (err (not_found "credentials" access_key_id), s)
      else (ok tt, record s { credentials = remove access_key_id s.credentials })

  unfoldable pub list_user_credentials :
      Text → PageQuery → Inner T → StoreResult (PageOf (CredentialRecord T))
  unfolding page_sorted require_user
  list_user_credentials username query s = do
    require_user s username
    ok (page_sorted (filter (λ row. row.1.username == username) s.credentials) query)

  unfoldable pub check_principal : Text → Text → Inner T → StoreResult (Unit {0})
  unfolding require_user
  check_principal username principal_id s = do
    require_user s username
    if contains_key principal_id s.external_principals
        then err (already_exists "external principal" principal_id)
        else ok tt

  unfoldable pub create_external_principal :
      Text → Text → Inner T → StoreResult (Unit {0}) × Inner T
  unfolding check_principal
  create_external_principal username principal_id s =
      checked s (check_principal username principal_id s) λ _.
        let row : ExternalPrincipalRecord = record { id = principal_id; username = username } in
        (tt, record s { external_principals = insert principal_id row s.external_principals })

  unfoldable pub delete_external_principal :
      Text → Text → Inner T → StoreResult (Unit {0}) × Inner T
  delete_external_principal username principal_id s =
      let owned =
        is_some_and (λ p. p.username == username) (get principal_id s.external_principals) in
      if not owned
      then (err (not_found "external principal" principal_id), s)
      else (ok tt, record s { external_principals = remove principal_id s.external_principals })

  unfoldable pub get_external_principal : Text → Inner T → StoreResult ExternalPrincipalRecord
  get_external_principal principal_id s =
      ok_or (not_found "external principal" principal_id) (get principal_id s.external_principals)

  unfoldable pub list_user_external_principals :
      Text → PageQuery → Inner T → StoreResult (PageOf ExternalPrincipalRecord)
  unfolding page_sorted require_user
  list_user_external_principals username query s = do
    require_user s username
    ok (page_sorted (filter (λ row. row.1.username == username) s.external_principals) query)

  unfoldable pub claim_token_id : Text → T → Inner T → StoreResult (Unit {0}) × Inner T
  claim_token_id token_id expires_at s =
      if contains_key token_id s.claimed_token_ids
      then (err (already_exists "token id" token_id), s)
      else (ok tt, record s { claimed_token_ids = insert token_id expires_at s.claimed_token_ids })

  -- `later a b` is jiff's `a > b`.
  unfoldable pub delete_expired_token_ids : (T → T → Bool) → T → Inner T → StoreResult ℕ × Inner T
  delete_expired_token_ids later now s =
      let kept = retain (λ _ expires. later expires now) s.claimed_token_ids in
      (ok (length s.claimed_token_ids - length kept), record s { claimed_token_ids = kept })
