-- ===== src/Authn/SecureCookie.antt =====
-- crates/lakefs-authn/src/lakefs/securecookie.rs: the signed envelope of a session. Base64 and the
-- keyed HMAC are parameters; a `Vec<u8>` is a list of numbers below 256.
pub mod Envelope
pub mod Genuine
use lakefs_auth.Common.{
  ℕ, zero, ◌+◌, ◌*◌, Bool, not, ◌&&◌, Option, none, some, List, [], ◌∷◌, ◌++◌, drop, ltb,
  if◌then◌else◌,
}
use lakefs_auth.Common
use lakefs_auth.Common.Int.{ℤ, pos, negsuc, ◌-ℤ◌, ◌≤?ℤ◌}
use lakefs_auth.Std.Order.{Text, text_ord, ◌==◌}
use lakefs_auth.Std.Str.{len, splitn, decimal}
use lakefs_auth.Std.Utf8.{as_bytes, from_utf8}
use lakefs_auth.Std.Parse.{parse_i64}
use lakefs_auth.Std.Result.{Result, ok, err, ok_or, ◌>>=◌, ◌>>◌}

abbrev pub default_max_length : ℕ
default_max_length = 4096

abbrev pub default_max_age : ℤ
default_max_age = pos (86400 * 30)

abbrev pub mac_len : ℕ
mac_len = 32

pub data CookieError : Type 0 where
  too_long not_base64 malformed bad_signature bad_timestamp expired : CookieError

-- `base64::engine::general_purpose::URL_SAFE`
pub record Base64 : Type 0 where
  pub encode : List ℕ → Text
  pub decode : List ℕ → Option (List ℕ)

-- `mac` is the HMAC under the key that the codec was made with.
pub record CookieCodec : Type 0 where
  pub mac : List ℕ → List ℕ
  pub max_length : ℕ
  pub max_age : ℤ

-- `CookieCodec::new`, over `HmacSha256`
abbrev pub new : (List ℕ → List ℕ → List ℕ) → List ℕ → CookieCodec
new hmac hash_key = record {
  mac = hmac hash_key;
  max_length = default_max_length;
  max_age = default_max_age;
}

abbrev pub with_max_length : ℕ → CookieCodec → CookieCodec
with_max_length most codec = record { mac = codec.mac; max_length = most; max_age = codec.max_age }

abbrev pub is_over : ℕ → ℕ → Bool
is_over most size = not (Common.◌==◌ most 0) && ltb most size

abbrev pub is_zero : ℤ → Bool
is_zero (pos n) = Common.◌==◌ n 0
is_zero (negsuc n) = Common.Bool.false

-- `codec.max_age != 0 && issued < now - codec.max_age`; an age does not reach the ends of `i64`.
abbrev pub is_expired : ℤ → ℤ → ℤ → Bool
is_expired age now issued = not (is_zero age) && not (now -ℤ age ≤?ℤ issued)

-- `raw.splitn(3, |byte| *byte == b'|')`, all three parts of it
unfoldable pub fields : List (List ℕ) → Result (List ℕ × List ℕ × List ℕ) CookieError
fields (timestamp ∷ encoded_value ∷ mac ∷ rest) = ok (timestamp, encoded_value, mac)
fields _ = err malformed

-- What the MAC covers.
abbrev pub signed_bytes : List ℕ → List ℕ → List ℕ → List ℕ
signed_bytes name timestamp encoded_value = name ++ (b'|' ∷ (timestamp ++ (b'|' ∷ encoded_value)))

unfoldable pub parse_timestamp : Option Text → Option ℤ
parse_timestamp none = none
parse_timestamp (some text) = parse_i64 text

abbrev pub require : Bool → CookieError → Result (Unit {0}) CookieError
require b e = if b then ok tt else err e

unfoldable pub signed_text : Text → ℤ → Text → Text
signed_text name timestamp encoded_value =
    name ++ (b'|' ∷ (decimal timestamp ++ (b'|' ∷ encoded_value)))

-- The trailing pipe is kept and the leading `name|` dropped.
unfoldable pub payload_of : CookieCodec → Text → Text → List ℕ
payload_of codec name signed =
    drop (len name + 1) (as_bytes signed) ++ (b'|' ∷ codec.mac (as_bytes signed))

module _ (base64 : Base64) where
  unfoldable pub encode_at : CookieCodec → Text → List ℕ → ℤ → Result Text CookieError
  encode_at codec name value timestamp =
      let out =
        base64.encode (payload_of codec name (signed_text name timestamp (base64.encode value))) in
      if is_over codec.max_length (len out) then err too_long else ok out

  -- What follows the check of the MAC.
  unfoldable pub open_value : CookieCodec → ℤ → List ℕ → List ℕ → Result (List ℕ) CookieError
  open_value codec now timestamp encoded_value = do
    issued ← ok_or bad_timestamp (parse_timestamp (from_utf8 timestamp))
    require (not (is_expired codec.max_age now issued)) expired
    ok_or not_base64 (base64.decode encoded_value)

  -- What follows the split.
  unfoldable pub open_fields :
      CookieCodec → Text → ℤ → List ℕ × List ℕ × List ℕ → Result (List ℕ) CookieError
  unfolding open_value
  open_fields codec name now (timestamp, encoded_value, mac) = do
    require (codec.mac (signed_bytes (as_bytes name) timestamp encoded_value) == mac) bad_signature
    open_value codec now timestamp encoded_value

  -- What follows the decoding.
  unfoldable pub open_raw : CookieCodec → Text → ℤ → List ℕ → Result (List ℕ) CookieError
  unfolding fields open_fields
  open_raw codec name now raw = fields (splitn 3 b'|' raw) >>= open_fields codec name now

  unfoldable pub decode_at : CookieCodec → Text → Text → ℤ → Result (List ℕ) CookieError
  unfolding open_raw
  decode_at codec name value now = do
    require (not (is_over codec.max_length (len value))) too_long
    raw ← ok_or not_base64 (base64.decode (as_bytes value))
    open_raw codec name now raw
