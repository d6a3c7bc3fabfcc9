-- ===== src/Core/Auth/Bearer.antt =====
-- crates/lakefs-auth-core/src/auth: which requests a verifier lets through.
use lakefs_auth.Common.{
  ℕ, ◌≡◌, refl, sym, ◌↔◌, Bool, true, false, inl, inr, Option, none, some, List, arith, Bool-cases,
}
use lakefs_auth.Std.Order.{Text, text_ord, ◌==◌, ==_iff}
use lakefs_auth.Std.Utf8.{as_bytes}
use lakefs_auth.Std.Result.{ok}
use lakefs_auth.Core.Text.{non_blank}
use lakefs_auth.Core.Auth.{TokenVerifier, new, verify, require_auth, bearer_of, bytes_of, admitted}

abbrev static_verifier : List ℕ → TokenVerifier
static_verifier bytes = record { static_token = some bytes; decoding_key = none; disabled = false }

abbrev signed_verifier : List ℕ → TokenVerifier
signed_verifier key = record { static_token = none; decoding_key = some key; disabled = false }

-- A verifier with a static token holds no key.
new-static :
    (secret_key : Option Text) (api_token token : Text) (verifier : TokenVerifier)
    → non_blank api_token ≡ some token
    → new secret_key (some api_token) false ≡ ok verifier
    → verifier ≡ static_verifier (as_bytes token)
unfolding new
new-static secret_key api_token token verifier given made = ground (arith, given, made)

new-signed :
    (secret_key secret : Text) (api_token : Option Text) (verifier : TokenVerifier)
    → bytes_of api_token ≡ none
    → non_blank secret_key ≡ some secret
    → new (some secret_key) api_token false ≡ ok verifier
    → verifier ≡ signed_verifier (as_bytes secret)
unfolding new
new-signed secret_key secret api_token verifier blank given made =
    ground (arith, blank, given, made)

admitted-static :
    (decode : List ℕ → Text → Bool) (bytes : List ℕ) (given : Option Text)
    → (admitted decode (static_verifier bytes) given ≡ ok tt)
      ↔ ((bearer : Text) × (given ≡ some bearer) × (as_bytes bearer ≡ bytes))
unfolding verify
admitted-static decode bytes none = (λ h. ground arith, λ (b, e, _). ground (arith, e))
admitted-static decode bytes (some bearer) = elim (Bool-cases (bytes == as_bytes bearer)) [
  | inl same ↦
      (λ h. (bearer, refl, sym ((==_iff bytes (as_bytes bearer)).0 same)), λ w. rw same refl)
  | inr other ↦ (
    λ h. ground (arith, other, h),
    λ (b, e, same). ground (arith, other, e, same, (==_iff bytes (as_bytes bearer)).1),
  )
]

admitted-signed :
    (decode : List ℕ → Text → Bool) (key : List ℕ) (given : Option Text)
    → (admitted decode (signed_verifier key) given ≡ ok tt)
      ↔ ((bearer : Text) × (given ≡ some bearer) × (decode key bearer ≡ true))
unfolding verify
admitted-signed decode key none = (λ h. ground arith, λ (b, e, _). ground (arith, e))
admitted-signed decode key (some bearer) = elim (Bool-cases (decode key bearer)) [
  | inl same ↦ (λ h. (bearer, refl, same), λ w. rw same refl)
  | inr other ↦ (λ h. ground (arith, other, h), λ (b, e, same). ground (arith, other, e, same))
]

-- With a static token, where the check is not disabled, a request passes exactly when it carries that
-- token, trimmed, as its bearer: a JWT under the shared secret does not help.
pub require_auth-static :
    (decode : List ℕ → Text → Bool) (secret_key : Option Text) (api_token token : Text)
    (verifier : TokenVerifier) (header : Option Text)
    → non_blank api_token ≡ some token
    → new secret_key (some api_token) false ≡ ok verifier
    → (require_auth decode verifier header ≡ ok tt)
      ↔ ((bearer : Text) × (bearer_of header ≡ some bearer) × (as_bytes bearer ≡ as_bytes token))
require_auth-static decode secret_key api_token token verifier header given made =
    rw (new-static secret_key api_token token verifier given made)
      (unfold require_auth in admitted-static decode (as_bytes token) (bearer_of header))

-- Without a static token, where the check is not disabled, a request passes exactly when its bearer is a JWT that the shared secret
-- signs.
pub require_auth-signed :
    (decode : List ℕ → Text → Bool) (secret_key secret : Text) (api_token : Option Text)
    (verifier : TokenVerifier) (header : Option Text)
    → bytes_of api_token ≡ none
    → non_blank secret_key ≡ some secret
    → new (some secret_key) api_token false ≡ ok verifier
    → (require_auth decode verifier header ≡ ok tt) ↔ (
        (bearer : Text) × (bearer_of header ≡ some bearer)
        × (decode (as_bytes secret) bearer ≡ true))
require_auth-signed decode secret_key secret api_token verifier header blank given made =
    rw (new-signed secret_key secret api_token verifier blank given made)
      (unfold require_auth in admitted-signed decode (as_bytes secret) (bearer_of header))
