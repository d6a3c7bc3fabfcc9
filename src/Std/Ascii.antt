-- ===== src/Std/Ascii.antt =====
-- Strings next to their bytes: joined texts, lengths, and texts of ASCII characters.
use lakefs_auth.Common.{
  ℕ, zero, suc, ◌+◌, ◌/◌, ◌%◌, ◌<◌, ◌≡◌, refl, ap, ◌∙◌, Bool, true, false, Option, some, List, [],
  ◌∷◌, ◌++◌, length, drop, All, All-append, ltb, leb, arith, ◌≢◌, Bool-cases, inl, inr,
  length-append, all,
}
use lakefs_auth.Common
use lakefs_auth.Common.Int.{ℤ, pos, negsuc}
use lakefs_auth.Std.Order.{Text}
use lakefs_auth.Std.Str.{len, len_utf8, split_once, behind, digits, decimal}
use lakefs_auth.Std.Utf8.{as_bytes, encode_utf8, is_char, IsText}
use mathlib.Core.List.{append_assoc}

pub as_bytes-append : (s t : Text) → as_bytes (s ++ t) ≡ as_bytes s ++ as_bytes t
unfolding as_bytes
as_bytes-append [] t = refl
as_bytes-append (c ∷ s) t =
    ap (◌++◌ (encode_utf8 c)) (as_bytes-append s t)
    ∙ rw (append_assoc (encode_utf8 c) (as_bytes s) (as_bytes t)) refl

length-encode_utf8 : (c : ℕ) → length (encode_utf8 c) ≡ len_utf8 c
length-encode_utf8 c = ground arith

pub length-as_bytes : (s : Text) → length (as_bytes s) ≡ len s
unfolding as_bytes len
length-as_bytes [] = refl
length-as_bytes (c ∷ s) =
    omega
      (arith, length-append (encode_utf8 c) (as_bytes s), length-encode_utf8 c, length-as_bytes s)

abbrev pub IsAscii : Text → Type 0
IsAscii = All (λ c. c < 0x80)

ascii_byte : (c : ℕ) → c < 0x80 → encode_utf8 c ≡ c ∷ []
ascii_byte c h = ground arith

ascii_char : (c : ℕ) → c < 0x80 → is_char c ≡ true
ascii_char c h = ground arith

pub as_bytes-IsAscii : (s : Text) → IsAscii s → as_bytes s ≡ s
unfolding as_bytes
as_bytes-IsAscii [] h = refl
as_bytes-IsAscii (c ∷ s) (hc, h) = rw (ascii_byte c hc, as_bytes-IsAscii s h) refl

pub IsAscii→IsText : (s : Text) → IsAscii s → IsText s
IsAscii→IsText [] h = tt
IsAscii→IsText (c ∷ s) (hc, h) = (ascii_char c hc, IsAscii→IsText s h)

-- ASCII characters other than a separator.
abbrev pub IsField : ℕ → Text → Type 0
IsField d = All (λ c. (c < 0x80) × (c ≢ d))

pub IsField→IsAscii : (d : ℕ) (s : Text) → IsField d s → IsAscii s
IsField→IsAscii d [] h = tt
IsField→IsAscii d (c ∷ s) ((hc, _), h) = (hc, IsField→IsAscii d s h)

pub split_once-IsField :
    (d : ℕ) (front back : Text)
    → IsField d front
    → split_once d (front ++ (d ∷ back)) ≡ some (front, back)
unfolding split_once
split_once-IsField d [] back h = let same : (Common.◌==◌ d d) ≡ true = ground arith in rw same refl
split_once-IsField d (c ∷ front) back ((_, apart), h) =
    let other : (Common.◌==◌ c d) ≡ false = ground (arith, apart) in
    rw other (ap (behind c) (split_once-IsField d front back h))

drop-suc {ℓ} :
    {A : Type ℓ} (front back : List A) (x : A)
    → drop (length front + 1) (front ++ (x ∷ back)) ≡ back
drop-suc [] back x = refl
drop-suc (y ∷ front) back x =
    let next : suc (length front) + 1 ≡ suc (length front + 1) = omega arith in
    rw next (drop-suc front back x)

-- `&joined.as_bytes()[name.len() + 1..]` drops the name and the separator.
pub drop-as_bytes :
    (name rest : Text) (c : ℕ)
    → c < 0x80
    → drop (len name + 1) (as_bytes (name ++ (c ∷ rest))) ≡ as_bytes rest
unfolding as_bytes
drop-as_bytes name rest c h =
    rw (as_bytes-append name (c ∷ rest), ascii_byte c h, ← (length-as_bytes name))
      (drop-suc (as_bytes name) (as_bytes rest) c)

digits-IsField : (fuel n : ℕ) (rest : Text) → IsField b'|' rest → IsField b'|' (digits fuel n rest)
unfolding digits
digits-IsField zero n rest h = h
digits-IsField (suc fuel) n rest h = elim (Bool-cases (ltb n 10)) [
  | inl small ↦
      let below : n < 10 = ground (arith, small) in rw small ((omega arith, λ e. omega arith), h)
  | inr large ↦
      rw large
        (digits-IsField fuel (n / 10) ((48 + n % 10) ∷ rest) ((omega arith, λ e. omega arith), h))
]

pub decimal-IsField : (z : ℤ) → IsField b'|' (decimal z)
unfolding decimal
decimal-IsField (pos n) = digits-IsField 20 n [] tt
decimal-IsField (negsuc n) = ((omega arith, λ e. omega arith), digits-IsField 20 (suc n) [] tt)

abbrev pub IsBytes : List ℕ → Type 0
IsBytes = All (λ b. b < 256)

pub IsBytes-append : (xs ys : List ℕ) → IsBytes xs → IsBytes ys → IsBytes (xs ++ ys)
IsBytes-append xs ys hx hy = All-append (λ b. b < 256) xs ys hx hy

pub IsField→IsBytes : (d : ℕ) (s : Text) → IsField d s → IsBytes s
IsField→IsBytes d [] h = tt
IsField→IsBytes d (c ∷ s) ((hc, _), h) = (omega arith, IsField→IsBytes d s h)

pub drop-IsBytes : (n : ℕ) (bytes : List ℕ) → IsBytes bytes → IsBytes (drop n bytes)
drop-IsBytes zero bytes h = h
drop-IsBytes (suc n) [] h = tt
drop-IsBytes (suc n) (b ∷ bytes) (hb, h) = drop-IsBytes n bytes h

encode_utf8-IsBytes : (c : ℕ) → is_char c ≡ true → IsBytes (encode_utf8 c)
encode_utf8-IsBytes c h = ground arith

pub as_bytes-IsBytes : (s : Text) → IsText s → IsBytes (as_bytes s)
unfolding as_bytes
as_bytes-IsBytes [] h = tt
as_bytes-IsBytes (c ∷ s) (hc, h) =
    IsBytes-append (encode_utf8 c) (as_bytes s) (encode_utf8-IsBytes c hc) (as_bytes-IsBytes s h)

pub all-IsBytes : (bytes : List ℕ) → all (λ b. ltb b 256) bytes ≡ true → IsBytes bytes
all-IsBytes [] h = tt
all-IsBytes (b ∷ bytes) h = ground (arith, all-IsBytes bytes)
