-- ===== src/Service/Secrets.antt =====
-- crates/lakefs-authz/src/service.rs: a secret that is read back.
use lakefs_auth.Common.{
  ℕ, ◌≡◌, sym, ap, ◌∙◌, Option, List, length, inl, inr, arith, Bool-cases, Option-cases,
}
use lakefs_auth.Common.Int.{ℤ}
use lakefs_auth.Std.Order.{Text, text_ord}
use lakefs_auth.Std.Utf8.{IsText}
use lakefs_auth.Std.BTreeMap.{get, contains_key}
use lakefs_auth.Std.BTreeMap.Laws.{get-insert}
use lakefs_auth.Std.Result.{ok, Result-cases}
use lakefs_auth.Core.Model.{CredentialsWithSecret}
use lakefs_auth.Core.Crypto.SecretBox.{
  SecretBox, IsAead, nonce_len, seal_str, open_str, open_str-seal_str,
}
use lakefs_auth.Store.Types.{NewCredential, CredentialRecord, sealed}
use lakefs_auth.Store.Mem.Inner.{Inner, insert_credential}
use lakefs_auth.Store.Mem.Credentials
use lakefs_auth.Service.KeyRequests.{
  Entropy, key_pair, credential_inserted, create_credentials, credentials_with_secret,
}

abbrev stored : {T : Type 0} → NewCredential T → ℕ → CredentialRecord T
stored row user_id = record {
  access_key_id = row.access_key_id;
  username = row.username;
  user_id = user_id;
  secret_ciphertext = row.secret_ciphertext;
  creation_date = row.creation_date;
}

module _ {T : Type 0} (as_second : T → ℤ) (secrets : SecretBox) where
  -- A stored row is found under its key, with the user it was made for.
  inserted :
      (row : NewCredential T) (secret : Text) (s : Inner T) (answer : CredentialsWithSecret)
      → (credential_inserted as_second secret s (ok row)).0 ≡ ok answer
      → open_str secrets row.secret_ciphertext ≡ ok secret
      → credentials_with_secret as_second secrets row.access_key_id
          (credential_inserted as_second secret s (ok row)).1
        ≡ ok answer
  unfolding credentials_with_secret Credentials.create_credential insert_credential
      Credentials.get_credential
  inserted row secret s answer h opened = elim (Option-cases (get row.username s.users)) [
    | inl nobody ↦ absurd (ground (arith, nobody, h))
    | inr (user, found) ↦ elim (Bool-cases (contains_key row.access_key_id s.credentials)) [
      | inl taken ↦ absurd (ground (arith, found, taken, h))
      | inr free ↦ ground (
        arith,
        found,
        free,
        h,
        opened,
        get-insert row.access_key_id row.access_key_id (stored row user.user_id) s.credentials,
        text_ord.cmp_self row.access_key_id,
      )
    ]
  ]

  -- The answer names the key of the row and the secret.
  answered :
      (row : NewCredential T) (secret : Text) (s : Inner T) (answer : CredentialsWithSecret)
      → (credential_inserted as_second secret s (ok row)).0 ≡ ok answer
      → (answer.access_key_id ≡ row.access_key_id) × (answer.secret_access_key ≡ secret)
  unfolding Credentials.create_credential insert_credential
  answered row secret s answer h = elim (Option-cases (get row.username s.users)) [
    | inl nobody ↦ absurd (ground (arith, nobody, h))
    | inr (user, found) ↦ elim (Bool-cases (contains_key row.access_key_id s.credentials)) [
      | inl taken ↦ absurd (ground (arith, found, taken, h))
      | inr free ↦ (ground (arith, found, free, h), ground (arith, found, free, h))
    ]
  ]

  -- What sealing makes is opened with the same secret.
  opened :
      (aead : IsAead secrets) (username key secret : Text) (nonce : List ℕ) (now : T)
      (row : NewCredential T)
      → length nonce ≡ nonce_len
      → IsText secret
      → sealed username key secret secrets nonce now ≡ ok row
      → (open_str secrets row.secret_ciphertext ≡ ok secret) × (row.access_key_id ≡ key)
  unfolding sealed
  opened aead username key secret nonce now row sized text h =
      elim (Result-cases (seal_str secrets nonce secret)) [
        | inr (e, failed) ↦ absurd (ground (arith, failed, h))
        | inl (blob, done) ↦ (
          let same : row.secret_ciphertext ≡ blob = ground (arith, done, h) in
              rw same (open_str-seal_str secrets aead nonce secret blob sized text done),
          ground (arith, done, h),
        )
      ]

  -- The answer to a create carries the pair that is stored, and the lookup of its key answers the
  -- same, with the secret in clear.
  pub credentials_with_secret-create_credentials :
      (aead : IsAead secrets) (encode : List ℕ → Text) (entropy : Entropy) (now : T)
      (username : Text) (access_key secret_key : Option Text) (s : Inner T)
      (answer : CredentialsWithSecret)
      → length entropy.nonce ≡ nonce_len
      → IsText (key_pair encode entropy access_key secret_key).1
      → (create_credentials as_second encode secrets entropy now username access_key secret_key s).0
        ≡ ok answer
      → ((answer.access_key_id, answer.secret_access_key)
          ≡ key_pair encode entropy access_key secret_key)
        × (credentials_with_secret as_second secrets answer.access_key_id
              (create_credentials as_second encode secrets entropy now username access_key
                secret_key s).1
            ≡ ok answer)
  unfolding create_credentials
  credentials_with_secret-create_credentials aead encode entropy now username access_key secret_key
        s answer sized text h =
      let (key, secret) = key_pair encode entropy access_key secret_key in
      elim (Result-cases (sealed username key secret secrets entropy.nonce now)) [
        | inr (e, failed) ↦ absurd (ground (arith, failed, h))
        | inl (row, done) ↦
            let (reads, named) =
              opened aead username key secret entropy.nonce now row sized text done in
            let made : (credential_inserted as_second secret s (ok row)).0 ≡ ok answer =
              ap (λ r. (credential_inserted as_second secret s r).0) (sym done) ∙ h in
            let store = (credential_inserted as_second secret s (ok row)).1 in
            let (same_key, same_secret) = answered row secret s answer made in
            (
              ground (arith, same_key, same_secret, named),
              ap
                    (λ r.
                      credentials_with_secret as_second secrets answer.access_key_id
                        (credential_inserted as_second secret s r).1)
                    done
                  ∙ ap (λ k. credentials_with_secret as_second secrets k store) same_key
                  ∙ inserted row secret s answer made reads,
            )
      ]
