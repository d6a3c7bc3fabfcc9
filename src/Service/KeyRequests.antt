-- ===== src/Service/KeyRequests.antt =====
-- crates/lakefs-authz/src/service.rs: access keys. What the generator of random numbers answers is
-- an argument.
use lakefs_auth.Common.{ℕ, Option, none, some, List, ◌++◌}
use lakefs_auth.Common.Int.{ℤ, pos}
use lakefs_auth.Std.Order.{Text}
use lakefs_auth.Std.Str.{codes, decimal}
use lakefs_auth.Std.Result.{Result, ok, err, ◌>>=◌, map_err}
use lakefs_auth.Core.Error.{ApiError}
use lakefs_auth.Core.Model.{Credentials, CredentialsWithSecret, ExternalPrincipal}
use lakefs_auth.Core.Text.{non_blank}
use lakefs_auth.Core.Crypto.SecretBox.{SecretBox, CryptoError, open_str}
use lakefs_auth.Core.Crypto.Keygen.{Index, new_access_key_id, new_secret_access_key}
use lakefs_auth.Store.Error.{to_api_error}
use lakefs_auth.Store.Types.{
  CredentialRecord, NewCredential, ExternalPrincipalRecord, sealed, ◌and_then◌,
}
use lakefs_auth.Store.Mem.Inner.{Inner}
use lakefs_auth.Store.Mem.Credentials
use lakefs_auth.Service.{map_ok}

-- What the generator answers during a request.
pub record Entropy : Type 0 where
  pub draw : ℕ → Index
  pub secret_bytes : List ℕ
  pub nonce : List ℕ

-- `Option::zip`
abbrev pub zip : {A B : Type 0} → Option A → Option B → Option (A × B)
zip (some a) (some b) = some (a, b)
zip _ _ = none

abbrev pub principal_to_wire : ExternalPrincipalRecord → ExternalPrincipal
principal_to_wire row = record { user_id = row.username; id = row.id }

-- The texts of the errors of `CryptoError`.
unfoldable pub crypto_text : CryptoError → Text
crypto_text CryptoError.too_short = codes "ciphertext is too short"
crypto_text CryptoError.decrypt = codes "decryption failed"
crypto_text CryptoError.encrypt = codes "encryption failed"
crypto_text CryptoError.not_utf8 = codes "decrypted value is not valid UTF-8"
crypto_text (CryptoError.unsupported_version n) =
    codes "unsupported ciphertext version " ++ decimal (pos n)

-- The pair to store: the one that was supplied, or a generated one.
unfoldable pub key_pair : (List ℕ → Text) → Entropy → Option Text → Option Text → Text × Text
unfolding non_blank new_access_key_id
key_pair encode entropy access_key secret_key =
    elim (zip (access_key and_then non_blank) (secret_key and_then non_blank)) [
      | some pair ↦ pair
      | none ↦ (new_access_key_id entropy.draw, new_secret_access_key encode entropy.secret_bytes)
    ]

module _ {T : Type 0} (as_second : T → ℤ) where
  abbrev pub credentials_to_wire : CredentialRecord T → Credentials
  credentials_to_wire row = record {
    access_key_id = row.access_key_id;
    creation_date = as_second row.creation_date;
  }

  abbrev pub with_secret : Text → CredentialRecord T → CredentialsWithSecret
  with_secret secret_access_key row = record {
    access_key_id = row.access_key_id;
    secret_access_key = secret_access_key;
    creation_date = as_second row.creation_date;
    user_id = row.user_id;
    user_name = some row.username;
  }

  -- The insert of a row whose secret was sealed, and the answer.
  abbrev pub credential_inserted :
      Text
      → Inner T
      → Result (NewCredential T) CryptoError
      → Result CredentialsWithSecret ApiError × Inner T
  credential_inserted secret s (err e) =
      (err (ApiError.internal (codes "encrypt credentials secret: " ++ crypto_text e)), s)
  credential_inserted secret s (ok row) =
      let (created, s') = Credentials.create_credential row s in
      (map_ok (with_secret secret) (map_err to_api_error created), s')

  unfoldable pub create_credentials :
      (List ℕ → Text)
      → SecretBox
      → Entropy
      → T
      → Text
      → Option Text
      → Option Text
      → Inner T
      → Result CredentialsWithSecret ApiError × Inner T
  unfolding key_pair sealed Credentials.create_credential to_api_error crypto_text
  create_credentials encode secrets entropy now username access_key secret_key s =
      let (access_key_id, secret) = key_pair encode entropy access_key secret_key in
      credential_inserted secret s (sealed username access_key_id secret secrets entropy.nonce now)

  unfoldable pub credentials_with_secret :
      SecretBox → Text → Inner T → Result CredentialsWithSecret ApiError
  unfolding Credentials.get_credential to_api_error open_str crypto_text
  credentials_with_secret secrets access_key_id s = do
    row ← map_err to_api_error (Credentials.get_credential access_key_id s)
    secret ←
        map_err
          (λ e. ApiError.internal (
            codes "decrypt credentials secret for "
            ++ (access_key_id ++ (codes ": " ++ crypto_text e))))
          (open_str secrets row.secret_ciphertext)
    ok (with_secret secret row)
