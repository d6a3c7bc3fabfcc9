-- ===== src/Authn/SecureCookie/Genuine.antt =====
-- crates/lakefs-authn/src/lakefs/securecookie.rs: what a value that opens is made of.
use lakefs_auth.Common.{
  ℕ, suc, ◌≡◌, refl, sym, ap, ◌∙◌, Bool, true, false, not, inl, inr, none, some, List, [], ◌∷◌,
  ◌++◌, Bool-cases, Option-cases, arith, Option,
}
use lakefs_auth.Common
use lakefs_auth.Common.Int.{ℤ}
use lakefs_auth.Std.Order.{Text, text_ord, ◌==◌, ==_iff}
use lakefs_auth.Std.Str.{split_once, splitn, len}
use lakefs_auth.Std.Utf8.{as_bytes, from_utf8}
use lakefs_auth.Std.Result.{Result, ok, ok_or, ◌>>=◌, ◌>>◌, bind-ok, ok_or-ok}
use lakefs_auth.Authn.SecureCookie.{
  Base64, CookieCodec, CookieError, fields, signed_bytes, decode_at, open_value, open_fields,
  open_raw, is_expired, is_over, parse_timestamp, require, bad_timestamp, not_base64, bad_signature,
  expired, too_long,
}
use lakefs_auth.Authn.SecureCookie.Envelope.{layout}

split_once-some :
    (d : ℕ) (s front back : Text) → split_once d s ≡ some (front, back) → s ≡ front ++ (d ∷ back)
unfolding split_once
split_once-some d [] front back h = ground arith
split_once-some d (c ∷ s) front back h = elim (Bool-cases (Common.◌==◌ c d)) [
  | inl same ↦ ground (arith, same)
  | inr other ↦ elim (Option-cases (split_once d s)) [
    | inl e ↦ ground (arith, other, e)
    | inr ((f, b), e) ↦ ground (arith, other, e, split_once-some d s f b e)
  ]
]

-- A test that passed.
require-ok : (b : Bool) (e : CookieError) (u : Unit {0}) → require b e ≡ ok u → b ≡ true
require-ok true e u h = refl
require-ok false e u h = ground arith

after_one :
    (raw front back : List ℕ)
    → split_once b'|' raw ≡ some (front, back)
    → splitn 3 b'|' raw ≡ front ∷ splitn 2 b'|' back
unfolding splitn
after_one raw front back e = rw (splitn, e) refl

after_two :
    (raw front back : List ℕ)
    → split_once b'|' raw ≡ some (front, back)
    → splitn 2 b'|' raw ≡ front ∷ back ∷ []
unfolding splitn
after_two raw front back e = rw (splitn, e) refl

without :
    (n : ℕ) (raw : List ℕ) → split_once b'|' raw ≡ none → splitn (suc (suc n)) b'|' raw ≡ raw ∷ []
unfolding splitn
without n raw e = rw (splitn, e) refl

fields-ok :
    (raw front middle back : List ℕ)
    → fields (splitn 3 b'|' raw) ≡ ok (front, middle, back)
    → raw ≡ layout front middle back
unfolding fields
fields-ok raw front middle back h = elim (Option-cases (split_once b'|' raw)) [
  | inl e ↦ ground (arith, without 1 raw e)
  | inr ((f, rest), e) ↦ elim (Option-cases (split_once b'|' rest)) [
    | inl e2 ↦ ground (arith, after_one raw f rest e, without 0 rest e2)
    | inr ((m, b), e2) ↦ ground (
      arith,
      after_one raw f rest e,
      after_two rest m b e2,
      split_once-some b'|' raw f rest e,
      split_once-some b'|' rest m b e2,
    )
  ]
]

not-true : (b : Bool) → not b ≡ true → b ≡ false
not-true true h = ground arith
not-true false h = refl

-- A value that was signed with the key under the name, by the hand of `encode_at` or not, at a time
-- that is not too old, and that holds the payload.
pub record IsGenuine (base64 : Base64) (codec : CookieCodec) (name value : Text) (now : ℤ)
    (payload : List ℕ) : Type 0 where
  timestamp : List ℕ
  encoded_value : List ℕ
  issued : ℤ
  signature :
      base64.decode (as_bytes value)
      ≡ some (
          layout timestamp encoded_value
            (codec.mac (signed_bytes (as_bytes name) timestamp encoded_value)))
  time : parse_timestamp (from_utf8 timestamp) ≡ some issued
  fresh : is_expired codec.max_age now issued ≡ false
  content : base64.decode encoded_value ≡ some payload

module _ (base64 : Base64) (codec : CookieCodec) (name value : Text) (now : ℤ)
    (payload : List ℕ) where
  after_open_value :
      (t e m : List ℕ)
      → base64.decode (as_bytes value) ≡ some (layout t e m)
      → codec.mac (signed_bytes (as_bytes name) t e) ≡ m
      → open_value base64 codec now t e ≡ ok payload
      → IsGenuine base64 codec name value now payload
  unfolding open_value
  after_open_value t e m whole same h =
      let then_read : ℤ → Result (List ℕ) CookieError = λ issued.
        require (not (is_expired codec.max_age now issued)) expired
        >> ok_or not_base64 (base64.decode e) in
      let (issued, time, h1) =
        bind-ok (ok_or bad_timestamp (parse_timestamp (from_utf8 t))) then_read payload h in
      let (u, fresh, h2) =
        bind-ok (require (not (is_expired codec.max_age now issued)) expired)
          (λ _. ok_or not_base64 (base64.decode e)) payload h1 in
      record {
        timestamp = t;
        encoded_value = e;
        issued = issued;
        signature = whole ∙ ap (λ tag. some (layout t e tag)) (sym same);
        time = ok_or-ok _ _ issued time;
        fresh = not-true _ (require-ok _ _ u fresh);
        content = ok_or-ok _ _ payload h2;
      }

  after_open_raw :
      (raw : List ℕ)
      → base64.decode (as_bytes value) ≡ some raw
      → open_raw base64 codec name now raw ≡ ok payload
      → IsGenuine base64 codec name value now payload
  unfolding open_raw open_fields
  after_open_raw raw whole h =
      let ((t, e, m), parts, h1) =
        bind-ok (fields (splitn 3 b'|' raw)) (open_fields base64 codec name now) payload h in
      let tag = codec.mac (signed_bytes (as_bytes name) t e) in
      let (u, signed, h2) =
        bind-ok (require (tag == m) bad_signature) (λ _. open_value base64 codec now t e) payload
          h1 in
      after_open_value t e m (whole ∙ ap some (fields-ok raw t e m parts))
        ((==_iff tag m).0 (require-ok _ _ u signed)) h2

  -- A value that opens is signed with the codec's key under the name that it is opened with, has not
  -- expired, and holds the payload that was read.
  pub decode_at-IsGenuine :
      decode_at base64 codec name value now ≡ ok payload
      → IsGenuine base64 codec name value now payload
  unfolding decode_at
  decode_at-IsGenuine h =
      let read : Result (List ℕ) CookieError = ok_or not_base64 (base64.decode (as_bytes value)) in
      let (u, _, h1) =
        bind-ok (require (not (is_over codec.max_length (len value))) too_long)
          (λ _. read >>= open_raw base64 codec name now) payload h in
      let (raw, whole, h2) = bind-ok read (open_raw base64 codec name now) payload h1 in
      after_open_raw raw (ok_or-ok _ _ raw whole) h2
