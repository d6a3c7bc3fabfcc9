-- ===== src/Authn/Session/Login.antt =====
-- crates/lakefs-authn/src/lakefs/session.rs: the cookie of a login, written and read.
use lakefs_auth.Common.{ℕ, ◌≡◌, refl, false, inl, inr, Option-cases, arith}
use lakefs_auth.Common.Int.{ℤ, IsI64}
use lakefs_auth.Std.Order.{Text}
use lakefs_auth.Std.Result.{Result, ok, err}
use lakefs_auth.Authn.Gob.{encode_token_map}
use lakefs_auth.Authn.Gob.Bytes.{encode_token_map-IsBytes}
use lakefs_auth.Authn.Gob.RoundTrip.{IsFitting, decode_token_map-encode_token_map}
use lakefs_auth.Authn.SecureCookie.{Base64, CookieError, encode_at, is_expired}
use lakefs_auth.Authn.SecureCookie.Envelope.{IsUrlSafe, IsTagged, decode_at-encode_at}
use lakefs_auth.Authn.Session.{
  SessionCookies, Cookie, login, read, session_cookie, session_of, login_cookie, to_cookie_duration,
  base_cookie,
}

session_of-value :
    (cookies : SessionCookies) (value : Text) (seconds : ℕ)
    → (session_of cookies value seconds).value ≡ value
unfolding base_cookie
session_of-value cookies value seconds = elim (Option-cases cookies.options.domain) [
  | inl e ↦ rw e refl
  | inr (d, e) ↦ rw e refl
]

login_cookie-value :
    (cookies : SessionCookies) (r : Result Text CookieError) (cookie : Cookie)
    → login_cookie cookies r ≡ ok cookie
    → r ≡ ok cookie.value
login_cookie-value cookies (ok value) cookie h =
    ground (arith, h, session_of-value cookies value (to_cookie_duration cookies.options.ttl))
login_cookie-value cookies (err e) cookie h = ground arith

-- A cookie of a login carries the sealed stream of the token.
login-ok :
    (base64 : Base64) (cookies : SessionCookies) (token : Text) (z : ℤ) (cookie : Cookie)
    → login base64 cookies token z ≡ ok cookie
    → encode_at base64 cookies.codec session_cookie (encode_token_map token) z ≡ ok cookie.value
unfolding login
login-ok base64 cookies token z cookie h =
    login_cookie-value cookies
      (encode_at base64 cookies.codec session_cookie (encode_token_map token) z) cookie h

-- The token of a login is read back from the cookie until it expires, when the token is well formed
-- and shorter than 2^63 bytes and the time is an `i64`.
pub read-login :
    (base64 : Base64) (cookies : SessionCookies)
    → IsUrlSafe base64
    → IsTagged cookies.codec
    → (token : Text) (z now : ℤ) (cookie : Cookie) → IsFitting token
    → IsI64 z
    → login base64 cookies token z ≡ ok cookie
    → is_expired cookies.codec.max_age now z ≡ false
    → read base64 cookies cookie.value now ≡ ok token
unfolding read
read-login base64 cookies safe tagged token z now cookie h hz sealed fresh =
    rw
      (
        decode_at-encode_at base64 cookies.codec safe tagged session_cookie cookie.value
            (encode_token_map token) z now (encode_token_map-IsBytes token h) hz
            (login-ok base64 cookies token z cookie sealed) fresh,
        decode_token_map-encode_token_map token h,
      )
      refl
