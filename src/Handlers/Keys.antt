-- ===== src/Handlers/Keys.antt =====
-- crates/lakefs-authz/src/handlers/credentials.rs, external.rs, tokenid.rs and meta.rs
use lakefs_auth.Common.{ℕ, Bool, Option, List, any, if◌then◌else◌}
use lakefs_auth.Common.Int.{ℤ}
use lakefs_auth.Std.Order.{Text}
use lakefs_auth.Std.Str.{codes, is_control}
use lakefs_auth.Std.Result.{Result, ok, err, ◌>>=◌, ok_or}
use lakefs_auth.Core.Error.{ApiError, invalid, unavailable}
use lakefs_auth.Core.Model.{Credentials, CredentialsWithSecret, ExternalPrincipal, ClaimTokenId}
use lakefs_auth.Core.Text.{non_blank}
use lakefs_auth.Core.Crypto.SecretBox.{SecretBox}
use lakefs_auth.Core.Pagination.{PaginationParams, ListResponse, normalize, map_page, into_response}
use lakefs_auth.Store.Error.{to_api_error}
use lakefs_auth.Store.Types.{◌and_then◌}
use lakefs_auth.Store.Mem.Inner.{Inner}
use lakefs_auth.Store.Mem.Credentials as Mem
use lakefs_auth.Service.KeyRequests.{Entropy, credentials_to_wire, principal_to_wire}
use lakefs_auth.Service.KeyRequests
use lakefs_auth.Service
use lakefs_auth.Service.{map_ok}
use lakefs_auth.Handlers.{created_code, no_content, read, page_read, written, created}

pub record CreateCredentialsQuery : Type 0 where
  pub access_key : Option Text
  pub secret_key : Option Text

pub record PrincipalQuery : Type 0 where
  pub principal_id : Option Text

unfoldable pub principal_id : PrincipalQuery → Result Text ApiError
unfolding non_blank is_control
principal_id query = do
  id ← ok_or (invalid (codes "principalId is required")) (query.principal_id and_then non_blank)
  if any is_control id
      then err (invalid (codes "principalId must not contain control characters"))
      else ok id

module _ {T : Type 0} (as_second : T → ℤ) where
  unfoldable pub list_user_credentials :
      Text → PaginationParams → Inner T → Result (ListResponse Credentials) ApiError
  unfolding normalize map_page into_response to_api_error Mem.list_user_credentials
  list_user_credentials username params s =
      page_read (credentials_to_wire as_second)
        (Mem.list_user_credentials username (normalize params) s)

  unfoldable pub create_credentials :
      (List ℕ → Text)
      → SecretBox
      → Entropy
      → T
      → Text
      → CreateCredentialsQuery
      → Inner T
      → Result (ℕ × CredentialsWithSecret) ApiError × Inner T
  unfolding KeyRequests.create_credentials
  create_credentials encode secrets entropy now username query s = created (
      KeyRequests.create_credentials as_second encode secrets entropy now username query.access_key
        query.secret_key s)

  unfoldable pub get_credentials_for_user : Text → Text → Inner T → Result Credentials ApiError
  unfolding Mem.get_user_credential to_api_error
  get_credentials_for_user username access_key_id s =
      read (credentials_to_wire as_second) (Mem.get_user_credential username access_key_id s)

  unfoldable pub get_credentials :
      SecretBox → Text → Inner T → Result CredentialsWithSecret ApiError
  unfolding KeyRequests.credentials_with_secret
  get_credentials secrets access_key_id s =
      KeyRequests.credentials_with_secret as_second secrets access_key_id s

module _ {T : Type 0} where
  unfoldable pub delete_credentials : Text → Text → Inner T → Result ℕ ApiError × Inner T
  unfolding Mem.delete_credential to_api_error
  delete_credentials username access_key_id s =
      written no_content (Mem.delete_credential username access_key_id s)

  unfoldable pub list_user_external_principals :
      Text → PaginationParams → Inner T → Result (ListResponse ExternalPrincipal) ApiError
  unfolding normalize map_page into_response to_api_error Mem.list_user_external_principals
  list_user_external_principals username params s =
      page_read principal_to_wire (Mem.list_user_external_principals username (normalize params) s)

  -- The id is read first; without one nothing is written.
  abbrev pub with_id :
      (Text → Inner T → Result ℕ ApiError × Inner T)
      → Result Text ApiError
      → Inner T
      → Result ℕ ApiError × Inner T
  with_id write (err e) s = (err e, s)
  with_id write (ok id) s = write id s

  unfoldable pub create_user_external_principal :
      Text → PrincipalQuery → Inner T → Result ℕ ApiError × Inner T
  unfolding principal_id Mem.create_external_principal to_api_error
  create_user_external_principal username query s =
      with_id (λ id s. written created_code (Mem.create_external_principal username id s))
        (principal_id query) s

  unfoldable pub delete_user_external_principal :
      Text → PrincipalQuery → Inner T → Result ℕ ApiError × Inner T
  unfolding principal_id Mem.delete_external_principal to_api_error
  delete_user_external_principal username query s =
      with_id (λ id s. written no_content (Mem.delete_external_principal username id s))
        (principal_id query) s

  unfoldable pub get_external_principal :
      PrincipalQuery → Inner T → Result ExternalPrincipal ApiError
  unfolding principal_id Mem.get_external_principal to_api_error
  get_external_principal query s = do
    id ← principal_id query
    read principal_to_wire (Mem.get_external_principal id s)

  abbrev pub with_code :
      {A : Type 0} → ℕ → Result A ApiError × Inner T → Result ℕ ApiError × Inner T
  with_code code (r, s) = (map_ok (λ _. code) r, s)

  unfoldable pub claim_token_id :
      (ℤ → Option T) → ClaimTokenId → Inner T → Result ℕ ApiError × Inner T
  unfolding Service.claim_token_id
  claim_token_id from_second body s =
      with_code created_code (Service.claim_token_id from_second body s)

abbrev pub healthcheck : ℕ
healthcheck = no_content

-- `answers` says whether `store.ping()` succeeds.
unfoldable pub readyz : Bool → Result (ℕ × Text) ApiError
readyz answers =
    if answers
    then ok (200, codes "ready")
    else err (unavailable (codes "the store does not answer"))
