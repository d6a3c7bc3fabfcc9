-- ===== src/Core/Auth.antt =====
-- crates/lakefs-auth-core/src/auth/token.rs and auth/middleware.rs: who may call the API. The check of
-- a JWT under a key, with the validation that `TokenVerifier::new` sets up, is a parameter.
pub mod Bearer
use lakefs_auth.Common.{
  ℕ, ◌-◌, ◌/◌, ◌^◌, Bool, true, false, not, ◌&&◌, Option, none, some, List, [], is_empty, is_none,
  is_some, ltb, if◌then◌else◌,
}
use lakefs_auth.Common
use lakefs_auth.Common.Int.{ℤ, pos, ◌+ℤ◌, ◌≤?ℤ◌}
use lakefs_auth.Std.Order.{Text, text_ord, ◌==◌}
use lakefs_auth.Std.Str.{codes, split_once, eq_ignore_ascii_case, trim}
use lakefs_auth.Std.Utf8.{as_bytes}
use lakefs_auth.Std.Result.{Result, ok, err}
use lakefs_auth.Core.Error.{ApiError, unauthorized}
use lakefs_auth.Core.Text.{non_blank}

-- `i64::try_from(ttl.as_secs()).unwrap_or(i64::MAX / 2)`
abbrev pub seconds_of : ℕ → ℕ
seconds_of ttl = if ltb ttl (2 ^ 63) then ttl else (2 ^ 63 - 1) / 2

abbrev pub i64_max : ℤ
i64_max = pos (2 ^ 63 - 1)

-- `saturating_add` of a number that is not negative
unfoldable pub expires_at : ℤ → ℕ → ℤ
expires_at issued_at ttl =
    let sum = issued_at +ℤ pos (seconds_of ttl) in if sum ≤?ℤ i64_max then sum else i64_max

pub data VerifierConfigError : Type 0 where
  nothing_configured : VerifierConfigError

-- A key is the secret's bytes. The validation is the same for every verifier.
pub record TokenVerifier : Type 0 where
  pub static_token : Option (List ℕ)
  pub decoding_key : Option (List ℕ)
  pub disabled : Bool

-- `value.and_then(non_blank).map(|s| s.as_bytes().to_vec())`
abbrev pub bytes_of : Option Text → Option (List ℕ)
bytes_of none = none
bytes_of (some value) = elim (non_blank value) [ none ↦ none | some text ↦ some (as_bytes text) ]

abbrev pub unless_given : Option (List ℕ) → Option (List ℕ) → Option (List ℕ)
unless_given none key = key
unless_given (some token) key = none

unfoldable pub new : Option Text → Option Text → Bool → Result TokenVerifier VerifierConfigError
new secret_key api_token disabled =
    let static_token = bytes_of api_token in
    let decoding_key = unless_given static_token (bytes_of secret_key) in
    if not disabled && is_none static_token && is_none decoding_key
    then err nothing_configured
    else ok
        (record { static_token = static_token; decoding_key = decoding_key; disabled = disabled })

pub data Mode : Type 0 where
  disabled_mode static_mode shared_secret_mode : Mode

unfoldable pub mode : TokenVerifier → Mode
mode verifier =
    if verifier.disabled
    then disabled_mode
    else if is_some verifier.static_token
    then static_mode
    else shared_secret_mode

-- `if let Some(expected) = &self.static_token && expected.ct_eq(bearer)`
abbrev pub is_token : Option (List ℕ) → Text → Bool
is_token none bearer = false
is_token (some expected) bearer = expected == as_bytes bearer

-- `let (scheme, rest) = header.split_once(' ')?`
abbrev pub bearer_in : Option (Text × Text) → Option Text
bearer_in none = none
bearer_in (some (scheme, rest)) =
    if eq_ignore_ascii_case scheme (codes "bearer")
    then (let token = trim rest in if is_empty token then none else some token)
    else none

unfoldable pub bearer_token : Text → Option Text
bearer_token header = bearer_in (split_once b' ' header)

abbrev pub bearer_of : Option Text → Option Text
bearer_of none = none
bearer_of (some header) = bearer_token header

module _ (decode : List ℕ → Text → Bool) where
  abbrev pub is_signed : Option (List ℕ) → Text → Bool
  is_signed none bearer = false
  is_signed (some key) bearer = decode key bearer

  unfoldable pub verify : TokenVerifier → Text → Result (Unit {0}) ApiError
  verify verifier bearer =
      if verifier.disabled
      then ok tt
      else if is_token verifier.static_token bearer
      then ok tt
      else if is_signed verifier.decoding_key bearer
      then ok tt
      else err (unauthorized (codes "invalid bearer token"))

  abbrev pub admitted : TokenVerifier → Option Text → Result (Unit {0}) ApiError
  admitted verifier none =
      if verifier.disabled then ok tt else err (unauthorized (codes "missing bearer token"))
  admitted verifier (some token) = verify verifier token

  -- `ok` runs the request. The header is the value of `Authorization`, where it is a string.
  unfoldable pub require_auth : TokenVerifier → Option Text → Result (Unit {0}) ApiError
  require_auth verifier header = admitted verifier (bearer_of header)
