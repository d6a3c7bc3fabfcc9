-- ===== src/Std/Utf8.antt =====
-- `str::as_bytes` and `String::from_utf8`.
use lakefs_auth.Common.{
  ℕ, zero, suc, ◌+◌, ◌-◌, ◌*◌, ◌/◌, ◌%◌, ◌≤◌, ◌<◌, ◌≡◌, refl, ap, ◌∙◌, Bool, true, not, ◌&&◌,
  Option, none, some, List, [], ◌∷◌, ◌++◌, length, All, ltb, leb, arith, if◌then◌else◌,
}
use lakefs_auth.Std.Order.{Text}

-- A `char`: a code point that is no surrogate.
abbrev pub is_char : ℕ → Bool
is_char c = ltb c 0x110000 && not (leb 0xd800 c && leb c 0xdfff)

abbrev pub encode_utf8 : ℕ → List ℕ
encode_utf8 c =
    if ltb c 0x80
    then c ∷ []
    else if ltb c 0x800
    then (0xc0 + c / 64) ∷ (0x80 + c % 64) ∷ []
    else if ltb c 0x10000
    then (0xe0 + c / 4096) ∷ (0x80 + c / 64 % 64) ∷ (0x80 + c % 64) ∷ []
    else (0xf0 + c / 262144) ∷ (0x80 + c / 4096 % 64) ∷ (0x80 + c / 64 % 64) ∷ (0x80 + c % 64) ∷ []

unfoldable pub as_bytes : Text → List ℕ
as_bytes [] = []
as_bytes (c ∷ s) = encode_utf8 c ++ as_bytes s

abbrev pub is_tail : ℕ → Bool
is_tail b = leb 0x80 b && leb b 0xbf

-- A code point in its shortest form: no lower than the form allows, and a `char`.
abbrev pub checked_char : ℕ → ℕ → List ℕ → Option (ℕ × List ℕ)
checked_char low c rest = if leb low c && is_char c then some (c, rest) else none

unfoldable pub decode_two : ℕ → List ℕ → Option (ℕ × List ℕ)
decode_two a (b ∷ rest) =
    if is_tail b then checked_char 0x80 ((a - 0xc0) * 64 + (b - 0x80)) rest else none
decode_two a _ = none

unfoldable pub decode_three : ℕ → List ℕ → Option (ℕ × List ℕ)
decode_three a (b ∷ c ∷ rest) =
    if is_tail b && is_tail c
    then checked_char 0x800 ((a - 0xe0) * 4096 + (b - 0x80) * 64 + (c - 0x80)) rest
    else none
decode_three a _ = none

unfoldable pub decode_four : ℕ → List ℕ → Option (ℕ × List ℕ)
decode_four a (b ∷ c ∷ d ∷ rest) =
    if is_tail b && is_tail c && is_tail d
    then checked_char 0x10000
        ((a - 0xf0) * 262144 + (b - 0x80) * 4096 + (c - 0x80) * 64 + (d - 0x80)) rest
    else none
decode_four a _ = none

unfoldable pub decode_char : List ℕ → Option (ℕ × List ℕ)
unfolding decode_two decode_three decode_four
decode_char [] = none
decode_char (a ∷ rest) =
    if ltb a 0x80
    then some (a, rest)
    else if ltb a 0xc0
    then none
    else if ltb a 0xe0
    then decode_two a rest
    else if ltb a 0xf0
    then decode_three a rest
    else if ltb a 0xf8
    then decode_four a rest
    else none

abbrev pub onto : ℕ → Option Text → Option Text
onto c none = none
onto c (some s) = some (c ∷ s)

unfoldable pub decode_all : ℕ → List ℕ → Option Text
decode_all fuel [] = some []
decode_all zero (b ∷ bs) = none
decode_all (suc fuel) (b ∷ bs) = elim (decode_char (b ∷ bs)) [
  | none ↦ none
  | some (c, rest) ↦ onto c (decode_all fuel rest)
]

-- Each round takes a byte at least.
unfoldable pub from_utf8 : List ℕ → Option Text
unfolding decode_all decode_char
from_utf8 bytes = decode_all (length bytes) bytes

decode_encode :
    (c : ℕ) (rest : List ℕ)
    → is_char c ≡ true
    → decode_char (encode_utf8 c ++ rest) ≡ some (c, rest)
unfolding decode_char
decode_encode c rest h = ground arith

encode_longer : (c : ℕ) (rest : List ℕ) → length rest < length (encode_utf8 c ++ rest)
encode_longer c rest = ground arith

decode_all_step :
    (fuel c : ℕ) (bytes rest : List ℕ)
    → decode_char bytes ≡ some (c, rest)
    → decode_all (suc fuel) bytes ≡ onto c (decode_all fuel rest)
unfolding decode_all
decode_all_step fuel c [] rest e = unfold decode_char in cc
decode_all_step fuel c (b ∷ bs) rest e = ground (arith, e)

abbrev pub IsText : Text → Type 0
IsText = All (λ c. is_char c ≡ true)

decode_all-as_bytes :
    (s : Text) (fuel : ℕ)
    → IsText s
    → length (as_bytes s) ≤ fuel
    → decode_all fuel (as_bytes s) ≡ some s
unfolding as_bytes
decode_all-as_bytes [] fuel h enough = unfold decode_all in refl
decode_all-as_bytes (c ∷ s) zero (hc, hs) enough =
    absurd (omega (arith, encode_longer c (as_bytes s)))
decode_all-as_bytes (c ∷ s) (suc fuel) (hc, hs) enough =
    decode_all_step fuel c _ (as_bytes s) (decode_encode c (as_bytes s) hc)
    ∙ ap (onto c) (decode_all-as_bytes s fuel hs (omega (arith, encode_longer c (as_bytes s))))

-- The bytes of a text read back as the text.
pub from_utf8-as_bytes : (s : Text) → IsText s → from_utf8 (as_bytes s) ≡ some s
unfolding from_utf8
from_utf8-as_bytes s h = decode_all-as_bytes s (length (as_bytes s)) h (omega arith)
