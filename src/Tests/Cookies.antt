-- ===== src/Tests/Cookies.antt =====
-- Sealed cookies, at concrete values: a hexadecimal code in place of Base64, and a MAC that sums.
use lakefs_auth.Common.{
  ℕ, true, ◌++◌, ◌+◌, ◌-◌, ◌*◌, ◌/◌, ◌%◌, ◌≡◌, refl, Option, none, some, List, [], ◌∷◌, arith,
}
use lakefs_auth.Common.Int.{pos}
use lakefs_auth.Std.Order.{Text, cmp_text}
use lakefs_auth.Std.Str.{codes, len, decimal, splitn, split_once}
use lakefs_auth.Std.Utf8.{as_bytes, from_utf8}
use lakefs_auth.Std.Ascii.{IsBytes, IsField}
use lakefs_auth.Std.Result.{ok, err}
use lakefs_auth.Authn.SecureCookie.{
  Base64, CookieCodec, bad_signature, encode_at, decode_at, new, payload_of, signed_text,
  parse_timestamp,
}
use lakefs_auth.Authn.Gob.{
  encode_uint, encode_int, encode_token_map, encode_interface_string, encode_entries, encode_string,
  map_value, message, type_definition, zigzag, significant, be_bytes, position_nonzero,
}
use lakefs_auth.Authn.Gob.RoundTrip.{IsFitting}
use lakefs_auth.Authn.Session.{
  Cookie, SessionCookies, new_cookies, login, read, base_cookie, to_cookie_duration, cookie_path,
  session_cookie, lax,
}
use lakefs_auth.Authn.Session.Login.{read-login}
use lakefs_auth.Authn.SecureCookie.Envelope.{IsUrlSafe, IsTagged, decode_at-encode_at}
use lakefs_auth.Authn.SecureCookie.Genuine.{IsGenuine, decode_at-IsGenuine}
use lakefs_auth.Std.Parse.{parse_i64}

abbrev hex : List ℕ → Text
hex [] = []
hex (b ∷ bytes) = (64 + b / 16) ∷ (64 + b % 16) ∷ hex bytes

abbrev onto_bytes : ℕ → Option (List ℕ) → Option (List ℕ)
onto_bytes b none = none
onto_bytes b (some bytes) = some (b ∷ bytes)

abbrev unhex : Text → Option (List ℕ)
unhex [] = some []
unhex (c ∷ []) = none
unhex (c ∷ d ∷ s) = onto_bytes ((c - 64) * 16 + (d - 64)) (unhex s)

abbrev hexadecimal : Base64
hexadecimal = record { encode = hex; decode = unhex }

unhex-hex : (b : List ℕ) → IsBytes b → unhex (hex b) ≡ some b
unhex-hex [] h = refl
unhex-hex (b ∷ bytes) (hb, h) =
    let whole : (64 + b / 16 - 64) * 16 + (64 + b % 16 - 64) ≡ b = omega arith in
    rw (unhex-hex bytes h, whole) refl

hex-IsField : (b : List ℕ) → IsBytes b → IsField b'|' (hex b)
hex-IsField [] h = tt
hex-IsField (b ∷ bytes) (hb, h) =
    ((omega arith, λ e. omega arith), ((omega arith, λ e. omega arith), hex-IsField bytes h))

hexadecimal-IsUrlSafe : IsUrlSafe hexadecimal
hexadecimal-IsUrlSafe = record { decode_encode = unhex-hex; alphabet = hex-IsField }

abbrev total : List ℕ → ℕ
total [] = 0
total (b ∷ bytes) = (b + total bytes) % 256

abbrev sums : List ℕ → List ℕ → List ℕ
sums key message = total key ∷ total message ∷ []

abbrev codec : CookieCodec
codec = new sums (codes "key")

total-lt : (bytes : List ℕ) → IsBytes (total bytes ∷ [])
total-lt [] = (omega arith, tt)
total-lt (b ∷ bytes) = (omega arith, tt)

codec-IsTagged : IsTagged codec
codec-IsTagged m = ((total-lt (codes "key")).0, total-lt m)

abbrev cookies : SessionCookies
cookies = new_cookies sums (codes "key") (record { secure = true; domain = none; ttl = 3600 })

-- The value that `encode_at` makes of the bytes of `hi` at the time 7.
abbrev sealed : Text
sealed = codes "CGGLDFDHDFDIGLDIKO"

encode_at-hi : encode_at hexadecimal codec (codes "s") (codes "hi") (pos 7) ≡ ok sealed
unfolding encode_at len payload_of as_bytes signed_text decimal
encode_at-hi = refl

-- With a byte changed, the MAC does not match.
decode_at-forged :
    decode_at hexadecimal codec (codes "s") (codes "CGGLDFDHDFDJGLDIKO") (pos 9) ≡ err bad_signature
unfolding decode_at len as_bytes splitn split_once cmp_text
decode_at-forged = refl

decode_at-encode_at_example :
    decode_at hexadecimal codec (codes "s") sealed (pos 9) ≡ ok (codes "hi")
decode_at-encode_at_example =
    decode_at-encode_at hexadecimal codec hexadecimal-IsUrlSafe codec-IsTagged (codes "s") sealed
      (codes "hi") (pos 7) (pos 9) (omega arith, (omega arith, tt)) (omega arith, omega arith)
      encode_at-hi refl

decode_at-IsGenuine_example : IsGenuine hexadecimal codec (codes "s") sealed (pos 9) (codes "hi")
unfolding len as_bytes splitn split_once cmp_text parse_timestamp from_utf8 parse_i64
decode_at-IsGenuine_example =
    decode_at-IsGenuine hexadecimal codec (codes "s") sealed (pos 9) (codes "hi")
      (unfold decode_at in refl)

-- The cookie of a login with the token `abc` at the time 7.
abbrev session : Cookie
session = record {
  name = session_cookie;
  value =
      codes "CGGLD@DMDGDOD@DDD@DAD@DBDODODHD@D@D@D@DADAD@D@DADAD@D@D@D@D@DBDBDODODHD@D@D@D@DA"
      ++ (codes "D@DFDGDCDGDDDGDBDFDIDFDNDFDGD@DLD@DGD@D@D@DEDGDDDFDODFDKDFDEDFDND@DFDGDCDGDDDGDB"
          ++ codes "DFDIDFDNDFDGD@DLD@DED@D@D@DCDFDADFDBDFDCGLDICK");
  path = some cookie_path;
  http_only = true;
  same_site = lax;
  secure = true;
  max_age = some 3600;
  domain = none;
}

abc_IsFitting : IsFitting (codes "abc")
unfolding as_bytes
abc_IsFitting = ((refl, (refl, (refl, tt))), omega arith)

login-abc : login hexadecimal cookies (codes "abc") (pos 7) ≡ ok session
unfolding login encode_at encode_token_map message type_definition map_value encode_entries
    encode_interface_string encode_string encode_int encode_uint zigzag significant be_bytes
    position_nonzero as_bytes base_cookie to_cookie_duration len payload_of signed_text decimal
login-abc = refl

read-login_example : read hexadecimal cookies session.value (pos 9) ≡ ok (codes "abc")
read-login_example =
    read-login hexadecimal cookies hexadecimal-IsUrlSafe codec-IsTagged (codes "abc") (pos 7)
      (pos 9) session abc_IsFitting (omega arith, omega arith) login-abc refl
