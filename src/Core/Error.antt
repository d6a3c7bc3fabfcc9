-- ===== src/Core/Error.antt =====
-- crates/lakefs-auth-core/src/error.rs: the error type of the handlers and services.
use lakefs_auth.Common.{ℕ, String, ◌++◌}
use lakefs_auth.Std.Order.{Text}
use lakefs_auth.Std.Str.{codes}

-- `anyhow::Error` is carried by its text.
pub data ApiError : Type 0 where
  not_found invalid already_exists unauthorized forbidden not_implemented unavailable internal :
      Text → ApiError
  with_status : ℕ → Text → ApiError

-- `ApiError::not_found(entity, id)` and `ApiError::already_exists(entity, id)`
unfoldable pub entity_not_found : String → Text → ApiError
entity_not_found entity id = not_found (codes entity ++ (codes " not found: " ++ id))

unfoldable pub entity_already_exists : String → Text → ApiError
entity_already_exists entity id = already_exists (codes entity ++ (codes " already exists: " ++ id))

unfoldable pub status_code : ApiError → ℕ
status_code (not_found _) = 404
status_code (invalid _) = 400
status_code (already_exists _) = 409
status_code (unauthorized _) = 401
status_code (forbidden _) = 403
status_code (not_implemented _) = 501
status_code (unavailable _) = 503
status_code (internal _) = 500
status_code (with_status status _) = status

-- `self.to_string()`, by the `#[error(...)]` lines
unfoldable pub to_string : ApiError → Text
to_string (not_found m) = m
to_string (invalid m) = m
to_string (already_exists m) = m
to_string (unauthorized m) = m
to_string (forbidden m) = m
to_string (not_implemented m) = m
to_string (unavailable m) = m
to_string (internal m) = codes "internal error: " ++ m
to_string (with_status status m) = m

unfoldable pub public_message : ApiError → Text
unfolding to_string
public_message (internal _) = codes "internal server error"
public_message other = to_string other
