-- ===== src/Authn/SecureCookie/Envelope.antt =====
-- crates/lakefs-authn/src/lakefs/securecookie.rs: the layout of the envelope, written and
-- read back.
use lakefs_auth.Common.{
  ℕ, suc, ◌+◌, ◌<◌, ◌≡◌, refl, sym, ap, ◌∙◌, false, inl, inr, some, List, [], ◌∷◌, ◌++◌, drop,
  All-append, Bool-cases, arith,
}
use lakefs_auth.Common.Int.{ℤ, IsI64}
use lakefs_auth.Std.Order.{Text, text_ord, ==_iff}
use lakefs_auth.Std.Str.{splitn, decimal, len}
use lakefs_auth.Std.Utf8.{as_bytes, from_utf8, from_utf8-as_bytes}
use lakefs_auth.Std.Ascii.{
  IsBytes, IsField→IsBytes, IsField, IsAscii, IsField→IsAscii, IsAscii→IsText, as_bytes-append,
  as_bytes-IsAscii, split_once-IsField, drop-as_bytes, decimal-IsField,
}
use lakefs_auth.Std.Parse.{parse_i64-decimal}
use lakefs_auth.Std.Result.{ok}
use lakefs_auth.Authn.SecureCookie.{
  Base64, CookieCodec, fields, signed_bytes, signed_text, payload_of, encode_at, decode_at,
  open_value, open_fields, open_raw, is_expired, is_over, parse_timestamp,
}
use mathlib.Core.List.{append_assoc}

-- What the URL-safe Base64 promises: it decodes what it encoded, over an ASCII alphabet without
-- the pipe.
pub record IsUrlSafe (base64 : Base64) : Type 0 where
  pub decode_encode : (b : List ℕ) → IsBytes b → base64.decode (base64.encode b) ≡ some b
  pub alphabet : (b : List ℕ) → IsBytes b → IsField b'|' (base64.encode b)

-- An HMAC is made of bytes.
abbrev pub IsTagged : CookieCodec → Type 0
IsTagged codec = (m : List ℕ) → IsBytes (codec.mac m)

framed : (z : ℤ) (value : Text) → IsField b'|' value → IsAscii (decimal z ++ (b'|' ∷ value))
framed z value h =
    All-append (λ c. c < 0x80) (decimal z) (b'|' ∷ value) (IsField→IsAscii _ _ (decimal-IsField z))
      (omega arith, IsField→IsAscii _ _ h)

-- The text under the MAC, as bytes.
signed_text-bytes :
    (name : Text) (z : ℤ) (value : Text)
    → IsField b'|' value
    → as_bytes (signed_text name z value) ≡ signed_bytes (as_bytes name) (decimal z) value
unfolding signed_text
signed_text-bytes name z value h =
    as_bytes-append name (b'|' ∷ (decimal z ++ (b'|' ∷ value)))
    ∙ ap (◌++◌ (as_bytes name))
        (as_bytes-IsAscii (b'|' ∷ (decimal z ++ (b'|' ∷ value))) (omega arith, framed z value h))

abbrev pub layout : List ℕ → List ℕ → List ℕ → List ℕ
layout front middle back = front ++ (b'|' ∷ (middle ++ (b'|' ∷ back)))

payload_of-layout :
    (codec : CookieCodec) (name : Text) (z : ℤ) (value : Text)
    → IsField b'|' value
    → payload_of codec name (signed_text name z value)
      ≡ layout (decimal z) value (codec.mac (signed_bytes (as_bytes name) (decimal z) value))
unfolding payload_of
payload_of-layout codec name z value h =
    let tag = codec.mac (signed_bytes (as_bytes name) (decimal z) value) in
    let rest : drop (len name + 1) (as_bytes (signed_text name z value))
        ≡ decimal z ++ (b'|' ∷ value) =
      unfold signed_text in
      (drop-as_bytes name (decimal z ++ (b'|' ∷ value)) b'|' (omega arith)
        ∙ as_bytes-IsAscii (decimal z ++ (b'|' ∷ value)) (framed z value h)) in
    rw (rest, signed_text-bytes name z value h)
      (append_assoc (decimal z) (b'|' ∷ value) (b'|' ∷ tag))

splitn-IsField :
    (n : ℕ) (front back : List ℕ)
    → IsField b'|' front
    → splitn (suc (suc n)) b'|' (front ++ (b'|' ∷ back)) ≡ front ∷ splitn (suc n) b'|' back
unfolding splitn
splitn-IsField n front back h = rw (splitn, split_once-IsField b'|' front back h) refl

fields-layout :
    (front middle back : List ℕ)
    → IsField b'|' front
    → IsField b'|' middle
    → fields (splitn 3 b'|' (layout front middle back)) ≡ ok (front, middle, back)
unfolding fields
fields-layout front middle back hf hm =
    let last : splitn 1 b'|' back ≡ back ∷ [] = unfold splitn in refl in
    ap fields (
      splitn-IsField 1 front (middle ++ (b'|' ∷ back)) hf
      ∙ ap (◌∷◌ front) (splitn-IsField 0 middle back hm ∙ ap (◌∷◌ middle) last))

parse_timestamp-decimal : (z : ℤ) → IsI64 z → parse_timestamp (from_utf8 (decimal z)) ≡ some z
unfolding parse_timestamp
parse_timestamp-decimal z h =
    let ascii : IsAscii (decimal z) = IsField→IsAscii _ _ (decimal-IsField z) in
    ap parse_timestamp (
      ap from_utf8 (sym (as_bytes-IsAscii (decimal z) ascii))
      ∙ from_utf8-as_bytes (decimal z) (IsAscii→IsText (decimal z) ascii))
    ∙ parse_i64-decimal z h

-- The codec's side of a cookie that was sealed: it was not too long, and is the Base64 of the layout.
encode_at-sealed :
    (base64 : Base64) (codec : CookieCodec) (name : Text) (value : List ℕ) (z : ℤ) (out : Text)
    → encode_at base64 codec name value z ≡ ok out
    → (is_over codec.max_length (len out) ≡ false)
      × (base64.encode (payload_of codec name (signed_text name z (base64.encode value))) ≡ out)
unfolding encode_at
encode_at-sealed base64 codec name value z out h =
    let sealed = base64.encode (payload_of codec name (signed_text name z (base64.encode value))) in
    elim (Bool-cases (is_over codec.max_length (len sealed))) [
      | inl over ↦ ground (arith, over)
      | inr fits ↦ ground (arith, fits)
    ]

IsByte-layout :
    (front middle back : List ℕ)
    → IsBytes front
    → IsBytes middle
    → IsBytes back
    → IsBytes (layout front middle back)
IsByte-layout front middle back hf hm hb =
    All-append (λ b. b < 256) front (b'|' ∷ (middle ++ (b'|' ∷ back))) hf
      (omega arith, All-append (λ b. b < 256) middle (b'|' ∷ back) hm (omega arith, hb))

module _ (base64 : Base64) (codec : CookieCodec) (safe : IsUrlSafe base64)
    (tagged : IsTagged codec) where
  -- What was sealed for a name opens under that name as long as it has not expired, when the value
  -- is made of bytes and the time is an `i64`.
  pub decode_at-encode_at :
      (name out : Text) (value : List ℕ) (z now : ℤ)
      → IsBytes value
      → IsI64 z
      → encode_at base64 codec name value z ≡ ok out
      → is_expired codec.max_age now z ≡ false
      → decode_at base64 codec name out now ≡ ok value
  unfolding decode_at open_raw open_fields open_value
  decode_at-encode_at name out value z now hv hz h fresh =
      let encoded = base64.encode value in
      let field = safe.alphabet value hv in
      let signed = signed_bytes (as_bytes name) (decimal z) encoded in
      let whole = layout (decimal z) encoded (codec.mac signed) in
      let bytes : IsBytes whole =
        IsByte-layout (decimal z) encoded (codec.mac signed)
          (IsField→IsBytes _ _ (decimal-IsField z)) (IsField→IsBytes _ _ field) (tagged signed) in
      let (fits, e) = encode_at-sealed base64 codec name value z out h in
      let same : base64.encode whole ≡ out =
        ap base64.encode (sym (payload_of-layout codec name z encoded field)) ∙ e in
      let ascii : as_bytes out ≡ base64.encode whole =
        ap as_bytes (sym same)
        ∙ as_bytes-IsAscii (base64.encode whole)
            (IsField→IsAscii _ _ (safe.alphabet whole bytes)) in
      rw
        (
          fits,
          ascii,
          safe.decode_encode whole bytes,
          fields-layout (decimal z) encoded (codec.mac signed) (decimal-IsField z) field,
          (==_iff (codec.mac signed) (codec.mac signed)).1 refl,
          parse_timestamp-decimal z hz,
          fresh,
          safe.decode_encode value hv,
        )
        refl
