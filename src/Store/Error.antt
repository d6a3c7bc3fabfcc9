-- ===== src/Store/Error.antt =====
-- crates/lakefs-authz/src/store/error.rs: the errors of every store, and their HTTP form.
use lakefs_auth.Common.{String, Bool, true, false, ◌++◌}
use lakefs_auth.Std.Order.{Text}
use lakefs_auth.Std.Str.{codes}
use lakefs_auth.Std.Result.{Result}
use lakefs_auth.Core.Error.{ApiError, entity_not_found, entity_already_exists}

-- A static entity name is a literal; `anyhow::Error` is carried by its text.
pub data StoreError : Type 0 where
  not_found already_exists wrong_identity : String → Text → StoreError
  backend : Text → StoreError

abbrev pub StoreResult {ℓ} : Type ℓ → Type ℓ
StoreResult A = Result A StoreError

unfoldable pub is_not_found : StoreError → Bool
is_not_found (not_found entity id) = true
is_not_found _ = false

unfoldable pub is_already_exists : StoreError → Bool
is_already_exists (already_exists entity id) = true
is_already_exists _ = false

-- `impl From<StoreError> for ApiError`
unfoldable pub to_api_error : StoreError → ApiError
unfolding entity_not_found entity_already_exists
to_api_error (not_found entity id) = entity_not_found entity id
to_api_error (already_exists entity id) = entity_already_exists entity id
to_api_error (wrong_identity entity id) = ApiError.already_exists (
    codes entity
    ++ (codes " "
        ++ (id ++ codes " exists with a different identity; bootstrap leaves it untouched")))
to_api_error (backend error) = ApiError.internal error
