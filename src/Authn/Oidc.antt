-- ===== src/Authn/Oidc.antt =====
-- crates/lakefs-authn/src/oidc/mod.rs: the state of the provider's metadata, its refresh, and the check of
-- an ID token. `D` is the metadata that a discovery brings, `F` its failure. A time is an `Instant` in
-- nanoseconds. What a discovery answers and what the OpenID library says of a token are arguments.
pub mod Refresh
pub mod Verify
pub mod Startup
use lakefs_auth.Common.{
  ℕ, suc, ◌-◌, ◌*◌, Bool, true, false, Option, none, some, List, [], ◌∷◌, ltb, if◌then◌else◌,
  is_some, zero,
}
use Prim.Native.Nat.{min}
use lakefs_auth.Std.Order.{Text}
use lakefs_auth.Std.Str.{codes}
use lakefs_auth.Std.Result.{Result, ok, err, ok_or, map_err, ◌>>=◌, ◌>>◌}
use lakefs_auth.Core.Error.{ApiError}
use lakefs_auth.Core.Error
use lakefs_auth.Authn.Claims.{Claims, ClaimsError}

abbrev pub initial_backoff : ℕ
initial_backoff = 1000000000

abbrev pub max_backoff : ℕ
max_backoff = 30000000000

pub data OidcError : Type 0 where
  not_ready no_token_endpoint code_rejected provider_unreachable bad_token_response : OidcError
  missing_id_token : OidcError
  invalid_id_token : Text → OidcError
  unreadable_claims : ClaimsError → OidcError

-- `error.to_string()` is an argument of the conversion.
unfoldable pub into_api : (OidcError → Text) → OidcError → ApiError
into_api display not_ready = Error.unavailable (display not_ready)
into_api display no_token_endpoint = Error.unavailable (display no_token_endpoint)
into_api display provider_unreachable = Error.unavailable (display provider_unreachable)
into_api display other = Error.unauthorized (display other)

pub record OidcSettings : Type 0 where
  pub min_refresh_interval : ℕ
  pub failed_refresh_cooldown : ℕ

pub record KeyRefresh : Type 0 where
  pub at : ℕ
  pub succeeded : Bool

-- The fields of `OidcProvider` that change.
pub record OidcProvider (D : Type 0) : Type 0 where
  pub current : Option D
  pub last_key_refresh : Option KeyRefresh

-- One discovery: when it was asked for, when it answered, and what.
pub record Round (D F : Type 0) : Type 0 where
  pub start : ℕ
  pub finish : ℕ
  pub answer : Result D F

-- What the first loop of `run` does: it asks the provider, or sleeps.
pub data Event : Type 0 where
  attempted : Event
  slept : ℕ → Event

-- How long a refresh holds the next one off.
unfoldable pub hold_of : OidcSettings → KeyRefresh → ℕ
hold_of settings previous =
    if previous.succeeded
    then settings.min_refresh_interval
    else min settings.failed_refresh_cooldown settings.min_refresh_interval

-- `previous.at.elapsed() < hold`
unfoldable pub is_held : OidcSettings → Option KeyRefresh → ℕ → Bool
unfolding hold_of
is_held settings none now = false
is_held settings (some previous) now = ltb (now - previous.at) (hold_of settings previous)

module _ {D : Type 0} where
  abbrev pub ready : OidcProvider D → Result D OidcError
  ready provider = ok_or not_ready provider.current

  -- What a caller that is held off gets.
  abbrev pub held_answer : OidcProvider D → Option KeyRefresh → Option D
  held_answer provider none = none
  held_answer provider (some previous) = if previous.succeeded then provider.current else none

module _ {D F : Type 0} where
  -- `discover` publishes what it fetched.
  abbrev pub publish : OidcProvider D → Result D F → OidcProvider D
  publish provider (ok discovered) = record {
    current = some discovered;
    last_key_refresh = provider.last_key_refresh;
  }
  publish provider (err failure) = provider

  abbrev pub after_discovery : OidcProvider D → ℕ → Result D F → Option D × OidcProvider D
  after_discovery provider finish (ok discovered) = (
    some discovered,
    record {
      current = some discovered;
      last_key_refresh = some (record { at = finish; succeeded = true });
    },
  )
  after_discovery provider finish (err failure) = (
    none,
    record {
      current = provider.current;
      last_key_refresh = some (record { at = finish; succeeded = false });
    },
  )

  -- The round is the discovery that a caller makes when none holds it off; the last part of the
  -- answer is the discoveries that were made.
  unfoldable pub refresh_for_key_error :
      OidcSettings → OidcProvider D → Round D F → (Option D × OidcProvider D) × List (Round D F)
  unfolding is_held
  refresh_for_key_error settings provider round =
      if is_held settings provider.last_key_refresh round.start
      then ((held_answer provider provider.last_key_refresh, provider), [])
      else (after_discovery provider round.finish round.answer, round ∷ [])

  -- The first loop of `run`: the provider once an attempt was answered, or none when the fuel ran out,
  -- with what the loop did. `answers n` is what the attempt `n` answers.
  abbrev pub after_attempt :
      OidcProvider D
      → ℕ
      → Result D F
      → Option (OidcProvider D) × List Event
      → Option (OidcProvider D) × List Event
  after_attempt provider backoff (ok discovered) (later, events) =
      (some (publish provider (ok discovered)), attempted ∷ [])
  after_attempt provider backoff (err failure) (later, events) =
      (later, attempted ∷ slept backoff ∷ events)

  unfoldable pub startup :
      ℕ → OidcProvider D → ℕ → (ℕ → Result D F) → ℕ → Option (OidcProvider D) × List Event
  startup zero provider backoff answers attempt = (none, [])
  startup (suc fuel) provider backoff answers attempt =
      let later = startup fuel provider (min (backoff * 2) max_backoff) answers (suc attempt) in
      after_attempt provider backoff (answers attempt) later

-- The check of a token against the keys of some metadata: fine, no key with its id, or another error.
pub data KeyCheck : Type 0 where
  verified : KeyCheck
  unknown_key : Text → KeyCheck
  rejected : Text → KeyCheck

abbrev pub check_again : KeyCheck → Result (Unit {0}) OidcError
check_again verified = ok tt
check_again (unknown_key reason) = err (invalid_id_token reason)
check_again (rejected reason) = err (invalid_id_token reason)

abbrev pub with_refreshed {ℓ} :
    {D : Type ℓ} → (D → Text → KeyCheck) → Text → Text → Option D → Result (Unit {0}) OidcError
with_refreshed check raw reason none = err (invalid_id_token reason)
with_refreshed check raw reason (some discovered) = check_again (check discovered raw)

abbrev pub payload_after :
    {D : Type 0} (raw_payload : Text → Result Claims ClaimsError)
    → Text
    → Result (Unit {0}) OidcError × OidcProvider D
    → Result (Claims × Text) OidcError × OidcProvider D
payload_after raw_payload raw (err e, provider) = (err e, provider)
payload_after raw_payload raw (ok u, provider) =
    (map_err unreadable_claims (raw_payload raw) >>= λ claims. ok (claims, raw), provider)

module _ {D F : Type 0} (check : D → Text → KeyCheck) where
  -- The signature of the token, and the provider after the refresh where one was needed.
  abbrev pub check_signature :
      OidcSettings
      → OidcProvider D
      → Round D F
      → Text
      → KeyCheck
      → Result (Unit {0}) OidcError × OidcProvider D
  check_signature settings provider round raw verified = (ok tt, provider)
  check_signature settings provider round raw (rejected reason) =
      (err (invalid_id_token reason), provider)
  check_signature settings provider round raw (unknown_key reason) =
      let refreshed = (refresh_for_key_error settings provider round).0 in
      (with_refreshed check raw reason refreshed.0, refreshed.1)

  -- `id_token` is the token of the response, where it has one; the nonce is part of the check.
  unfoldable pub verify_id_token :
      (Text → Result Claims ClaimsError)
      → OidcSettings
      → OidcProvider D
      → Round D F
      → D
      → Option Text
      → Result (Claims × Text) OidcError × OidcProvider D
  unfolding refresh_for_key_error
  verify_id_token raw_payload settings provider round discovered none =
      (err missing_id_token, provider)
  verify_id_token raw_payload settings provider round discovered (some raw) =
      payload_after raw_payload raw
        (check_signature settings provider round raw (check discovered raw))
