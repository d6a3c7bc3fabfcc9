-- ===== src/Authn/Session.antt =====
-- crates/lakefs-authn/src/lakefs/session.rs: the cookies that the server sets. A lifetime is in whole
-- seconds; the current time is an argument.
pub mod Login
use lakefs_auth.Common.{ℕ, ◌-◌, ◌^◌, Bool, true, Option, none, some, List, [], ltb, if◌then◌else◌}
use lakefs_auth.Common.Int.{ℤ}
use lakefs_auth.Std.Order.{Text}
use lakefs_auth.Std.Str.{codes, len}
use lakefs_auth.Std.Result.{Result, ok, map_err, ◌>>=◌}
use lakefs_auth.Authn.Gob.{GobError, encode_token_map, decode_token_map}
use lakefs_auth.Authn.SecureCookie.{Base64, CookieCodec, CookieError, encode_at, decode_at, new}

abbrev pub session_cookie : Text
session_cookie = codes "internal_auth_session"

abbrev pub flow_cookie : Text
flow_cookie = codes "lakefs_authn_flow"

abbrev pub id_token_cookie : Text
id_token_cookie = codes "lakefs_authn_idt"

abbrev pub cookie_path : Text
cookie_path = codes "/"

abbrev pub flow_ttl : ℕ
flow_ttl = 600

abbrev pub max_id_token_bytes : ℕ
max_id_token_bytes = 2800

pub data SessionError : Type 0 where
  cookie_error : CookieError → SessionError
  gob_error : GobError → SessionError

pub data SameSite : Type 0 where
  strict lax unset : SameSite

-- The attributes of a `Set-Cookie` that the program sets.
pub record Cookie : Type 0 where
  pub name : Text
  pub value : Text
  pub path : Option Text
  pub http_only : Bool
  pub same_site : SameSite
  pub secure : Bool
  pub max_age : Option ℕ
  pub domain : Option Text

pub record SessionOptions : Type 0 where
  pub secure : Bool
  pub domain : Option Text
  pub ttl : ℕ

pub record SessionCookies : Type 0 where
  pub codec : CookieCodec
  pub options : SessionOptions

-- `SessionCookies::new`
abbrev pub new_cookies : (List ℕ → List ℕ → List ℕ) → List ℕ → SessionOptions → SessionCookies
new_cookies hmac secret options = record { codec = new hmac secret; options = options }

unfoldable pub base_cookie : Text → Text → Bool → Cookie
base_cookie name value secure = record {
  name = name;
  value = value;
  path = some cookie_path;
  http_only = true;
  same_site = lax;
  secure = secure;
  max_age = none;
  domain = none;
}

abbrev pub set_max_age : ℕ → Cookie → Cookie
set_max_age seconds cookie = record {
  name = cookie.name;
  value = cookie.value;
  path = cookie.path;
  http_only = cookie.http_only;
  same_site = cookie.same_site;
  secure = cookie.secure;
  max_age = some seconds;
  domain = cookie.domain;
}

-- `if let Some(domain) = ... { cookie.set_domain(domain) }`
abbrev pub set_domain : Option Text → Cookie → Cookie
set_domain none cookie = cookie
set_domain (some domain) cookie = record {
  name = cookie.name;
  value = cookie.value;
  path = cookie.path;
  http_only = cookie.http_only;
  same_site = cookie.same_site;
  secure = cookie.secure;
  max_age = cookie.max_age;
  domain = some domain;
}

-- Seconds beyond an `i64` are cut to the longest duration.
unfoldable pub to_cookie_duration : ℕ → ℕ
to_cookie_duration ttl = if ltb ttl (2 ^ 63) then ttl else 2 ^ 63 - 1

unfoldable pub private_cookie : SessionCookies → Text → Text → ℕ → Cookie
private_cookie cookies name value ttl =
    set_max_age (to_cookie_duration ttl) (base_cookie name value cookies.options.secure)

-- The domain and the lifetime of the session cookie.
abbrev pub session_of : SessionCookies → Text → ℕ → Cookie
session_of cookies value seconds =
    set_domain cookies.options.domain
      (set_max_age seconds (base_cookie session_cookie value cookies.options.secure))

abbrev pub login_cookie : SessionCookies → Result Text CookieError → Result Cookie SessionError
login_cookie cookies sealed = do
  value ← map_err cookie_error sealed
  ok (session_of cookies value (to_cookie_duration cookies.options.ttl))

unfoldable pub clear : SessionCookies → Cookie
clear cookies = session_of cookies [] 0

unfoldable pub flow : SessionCookies → Text → Cookie
flow cookies payload = private_cookie cookies flow_cookie payload flow_ttl

unfoldable pub id_token : SessionCookies → Text → Option Cookie
id_token cookies raw_id_token =
    if ltb max_id_token_bytes (len raw_id_token)
    then none
    else some (private_cookie cookies id_token_cookie raw_id_token cookies.options.ttl)

unfoldable pub removal : SessionCookies → Text → Cookie
removal cookies name = set_max_age 0 (base_cookie name [] cookies.options.secure)

module _ (base64 : Base64) where
  unfoldable pub login : SessionCookies → Text → ℤ → Result Cookie SessionError
  login cookies token now =
      login_cookie cookies
        (encode_at base64 cookies.codec session_cookie (encode_token_map token) now)

  unfoldable pub read : SessionCookies → Text → ℤ → Result Text SessionError
  read cookies value now = do
    payload ← map_err cookie_error (decode_at base64 cookies.codec session_cookie value now)
    map_err gob_error (decode_token_map payload)
