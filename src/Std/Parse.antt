-- ===== src/Std/Parse.antt =====
-- `text.parse::<i64>()`, and that it reads what `Display` writes.
use lakefs_auth.Common.{
  ℕ, zero, suc, ◌+◌, ◌-◌, ◌*◌, ◌/◌, ◌%◌, ◌^◌, ◌≤◌, ◌<◌, ◌≡◌, refl, sym, ap, ◌∙◌, Bool, true, false,
  ◌&&◌, Option, none, some, List, [], ◌∷◌, ltb, leb, arith, if◌then◌else◌, Bool-cases, inl, inr,
  All,
}
use lakefs_auth.Common
use lakefs_auth.Common.Int.{ℤ, pos, negsuc, IsI64}
use lakefs_auth.Std.Order.{Text}
use lakefs_auth.Std.Str.{digits, decimal}
use native.Mathlib.Nat.{pow-suc}

abbrev pub is_digit : ℕ → Bool
is_digit c = leb 48 c && leb c 57

-- The number that digits stand for, after those read so far.
unfoldable pub parse_digits : ℕ → Text → Option ℕ
parse_digits n [] = some n
parse_digits n (c ∷ s) =
    let rest = parse_digits (n * 10 + (c - 48)) s in if is_digit c then rest else none

abbrev pub at_most : ℕ → Option ℕ → Option ℕ
at_most top none = none
at_most top (some n) = if leb n top then some n else none

abbrev pub as_pos : Option ℕ → Option ℤ
as_pos none = none
as_pos (some n) = some (pos n)

abbrev pub as_neg : Option ℕ → Option ℤ
as_neg none = none
as_neg (some zero) = some (pos 0)
as_neg (some (suc n)) = some (negsuc n)

-- A digit must follow the sign.
abbrev pub parse_unsigned : Text → Option ℕ
parse_unsigned [] = none
parse_unsigned (c ∷ s) = parse_digits 0 (c ∷ s)

unfoldable pub parse_i64 : Text → Option ℤ
unfolding parse_digits
parse_i64 [] = none
parse_i64 (c ∷ s) =
    if Common.◌==◌ c b'-'
    then as_neg (at_most (2 ^ 63) (parse_unsigned s))
    else if Common.◌==◌ c b'+'
    then as_pos (at_most (2 ^ 63 - 1) (parse_unsigned s))
    else as_pos (at_most (2 ^ 63 - 1) (parse_digits 0 (c ∷ s)))

-- Digits written before a rest are read as the number, shifted by the reader.
parse_digits-digits :
    (fuel n : ℕ) (rest : Text)
    → n < 10 ^ fuel
    → 0 < fuel
    → parse_digits 0 (digits fuel n rest) ≡ parse_digits n rest
unfolding digits parse_digits
parse_digits-digits zero n rest h some_fuel = absurd (omega arith)
parse_digits-digits (suc zero) n rest h some_fuel =
    let small : ltb n 10 ≡ true = ground arith in rw small (ground arith)
parse_digits-digits (suc (suc fuel)) n rest h some_fuel = elim (Bool-cases (ltb n 10)) [
  | inl small ↦ rw small (ground arith)
  | inr large ↦
      let above : 10 ≤ n = ground (arith, large) in
      let digit : is_digit (48 + n % 10) ≡ true = ground arith in
      let joined : n / 10 * 10 + (48 + n % 10 - 48) ≡ n = omega arith in
      rw large (
        parse_digits-digits (suc fuel) (n / 10) ((48 + n % 10) ∷ rest)
          (omega (arith, pow-suc 10 (suc fuel))) (omega arith)
        ∙ rw (digit, joined) refl)
]

digits_head :
    (fuel n : ℕ) (rest : Text)
    → n < 10 ^ fuel
    → 0 < fuel
    → (c : ℕ) × (s : Text) × (digits fuel n rest ≡ c ∷ s) × (48 ≤ c)
unfolding digits
digits_head zero n rest h some_fuel = absurd (omega arith)
digits_head (suc zero) n rest h some_fuel =
    let small : ltb n 10 ≡ true = ground arith in (48 + n, rest, rw small refl, omega arith)
digits_head (suc (suc fuel)) n rest h some_fuel = elim (Bool-cases (ltb n 10)) [
  | inl small ↦ (48 + n, rest, rw small refl, omega arith)
  | inr large ↦
      let (c, s, e, above) =
        digits_head (suc fuel) (n / 10) ((48 + n % 10) ∷ rest)
          (omega (arith, pow-suc 10 (suc fuel))) (omega arith) in
      (c, s, rw large e, above)
]

parse_unsigned-digits : (n : ℕ) → n < 10 ^ 20 → parse_unsigned (digits 20 n []) ≡ some n
parse_unsigned-digits n h =
    let (c, s, e, above) = digits_head 20 n [] h (omega arith) in
    let read : parse_digits 0 (digits 20 n []) ≡ some n =
      parse_digits-digits 20 n [] h (omega arith) ∙ unfold parse_digits in refl in
    rw e (rw (← e) read)

within_top : (top n : ℕ) → n ≤ top → at_most top (some n) ≡ some n
within_top top n h = ground arith

without_sign :
    (c n : ℕ) (s : Text)
    → 48 ≤ c
    → parse_unsigned (c ∷ s) ≡ some n
    → parse_i64 (c ∷ s) ≡ as_pos (at_most (2 ^ 63 - 1) (some n))
unfolding parse_i64
without_sign c n s above read =
    let no_minus : (Common.◌==◌ c b'-') ≡ false = ground arith in
    let no_plus : (Common.◌==◌ c b'+') ≡ false = ground arith in
    rw (no_minus, no_plus) (ap (λ r. as_pos (at_most (2 ^ 63 - 1) r)) read)

parse_i64-digits :
    (n : ℕ) → n < 10 ^ 20 → parse_i64 (digits 20 n []) ≡ as_pos (at_most (2 ^ 63 - 1) (some n))
parse_i64-digits n h =
    let (c, s, e, above) = digits_head 20 n [] h (omega arith) in
    ap parse_i64 e
    ∙ without_sign c n s above (ap parse_unsigned (sym e) ∙ parse_unsigned-digits n h)

pub parse_i64-decimal : (z : ℤ) → IsI64 z → parse_i64 (decimal z) ≡ some z
unfolding parse_i64 decimal
parse_i64-decimal (pos n) (h, k) =
    parse_i64-digits n (omega arith) ∙ ap as_pos (within_top (2 ^ 63 - 1) n (omega arith))
parse_i64-decimal (negsuc n) (h, k) =
    ap (λ r. as_neg (at_most (2 ^ 63) r)) (parse_unsigned-digits (suc n) (omega arith))
    ∙ ap as_neg (within_top (2 ^ 63) (suc n) (omega arith))
