-- ===== src/Tests/Access.antt =====
-- Requests and supervised tasks, at concrete values.
use lakefs_auth.Common.{ℕ, ◌≡◌, ◌↔◌, refl, Bool, true, false, none, some, List, [], ◌∷◌}
use lakefs_auth.Std.Order.{Text, text_ord, ◌==◌, cmp_text}
use lakefs_auth.Std.Str.{codes, split_once, ascii_lower, trim}
use lakefs_auth.Std.Utf8.{as_bytes}
use lakefs_auth.Std.Result.{ok}
use lakefs_auth.Core.Text.{non_blank}
use lakefs_auth.Core.Tasks.{
  supervise, supervise-IsPaced, IsPaced, returned, panicked, cancelled, started, slept,
}
use lakefs_auth.Core.Auth.{TokenVerifier, new, require_auth, bearer_of, bearer_token, verify}
use lakefs_auth.Core.Auth.Bearer.{require_auth-static, require_auth-signed}

-- A check that knows one signed token of the key `key`.
abbrev knows : List ℕ → Text → Bool
knows key bearer = bearer == codes "jwt"

abbrev by_token : TokenVerifier
by_token = record { static_token = some (codes "token"); decoding_key = none; disabled = false }

abbrev by_key : TokenVerifier
by_key = record { static_token = none; decoding_key = some (codes "key"); disabled = false }

require_auth-static_example : (require_auth knows by_token (some (codes "Bearer jwt")) ≡ ok tt) ↔ (
    (bearer : Text) × (bearer_of (some (codes "Bearer jwt")) ≡ some bearer)
    × (as_bytes bearer ≡ as_bytes (codes "token")))
unfolding non_blank as_bytes
require_auth-static_example =
    require_auth-static knows (some (codes "key")) (codes " token ") (codes "token") by_token
      (some (codes "Bearer jwt")) (unfold non_blank in refl) (unfold new in refl)

require_auth-signed_example : (require_auth knows by_key (some (codes "bearer jwt")) ≡ ok tt) ↔ (
    (bearer : Text) × (bearer_of (some (codes "bearer jwt")) ≡ some bearer)
    × (knows (as_bytes (codes "key")) bearer ≡ true))
unfolding non_blank as_bytes
require_auth-signed_example =
    require_auth-signed knows (codes "key") (codes "key") (some (codes " ")) by_key
      (some (codes "bearer jwt")) (unfold non_blank in refl) (unfold non_blank in refl)
      (unfold new in refl)

-- The JWT passes under the key, and not beside a static token.
require_auth-jwt : require_auth knows by_key (some (codes "bearer jwt")) ≡ ok tt
unfolding require_auth bearer_token split_once cmp_text ascii_lower trim verify
require_auth-jwt = refl

-- The delay doubles, and a long run resets it.
supervise-doubled :
    supervise ((panicked, 5) ∷ (returned, 5) ∷ (panicked, 30000000001) ∷ (cancelled, 5) ∷ [])
    ≡ started
      ∷ slept 1000000000
      ∷ started
      ∷ slept 2000000000
      ∷ started
      ∷ slept 1000000000
      ∷ started
      ∷ []
unfolding supervise
supervise-doubled = refl

supervise-IsPaced_example :
    IsPaced ((panicked, 5) ∷ (cancelled, 5) ∷ []) (supervise ((panicked, 5) ∷ (cancelled, 5) ∷ []))
supervise-IsPaced_example = supervise-IsPaced ((panicked, 5) ∷ (cancelled, 5) ∷ [])
