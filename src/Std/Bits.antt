-- ===== src/Std/Bits.antt =====
-- A byte joined to the right of a number by `|`, as arithmetic.
use Prim.Native.Nat.{max, digits, bit_or, bit_or-bitwise}
use native.Mathlib.Nat.{pow-suc}
use lakefs_auth.Common.{ℕ, zero, suc, ◌+◌, ◌*◌, ◌/◌, ◌^◌, ◌≤◌, ◌<◌, ◌≡◌, refl, ap, arith}

abbrev or_digits : ℕ → ℕ → ℕ → ℕ
or_digits = digits (λ b. b) max

or_digits-zero : (n a : ℕ) → a ≤ n → or_digits n a 0 ≡ a
or_digits-zero zero zero h = refl
or_digits-zero zero (suc a) h = absurd (omega arith)
or_digits-zero (suc n) zero h = refl
or_digits-zero (suc n) (suc a) h = omega (arith, or_digits-zero n (suc a / 2) (omega arith))

-- A number with `k` zeros at its end, and one of at most `k` digits: no digit meets another.
or_digits_disjoint : (n k q a b : ℕ) → a ≡ q * 2 ^ k → a ≤ n → b < 2 ^ k → or_digits n a b ≡ a + b
or_digits_disjoint zero k q zero b e h fits = omega arith
or_digits_disjoint zero k q (suc a) b e h fits = absurd (omega arith)
or_digits_disjoint (suc n) k q zero b e h fits = omega arith
or_digits_disjoint (suc n) zero q (suc a) b e h fits =
    let none : b ≡ 0 = omega arith in rw none (omega (arith, or_digits-zero (suc n) (suc a) h))
or_digits_disjoint (suc n) (suc k) q (suc a) b e h fits =
    let twice : suc a ≡ 2 * (q * 2 ^ k) = omega (arith, ap (λ (t : ℕ). q * t) (pow-suc 2 k)) in
    omega (
      arith,
      or_digits_disjoint n k q (suc a / 2) (b / 2) (omega arith) (omega arith)
          (omega (arith, pow-suc 2 k)),
    )

-- `(x << 8) | b` for a byte `b`
pub bit_or_byte : (x b : ℕ) → b < 256 → bit_or (x * 256) b ≡ x * 256 + b
bit_or_byte x b h =
    simp bit_or-bitwise (or_digits_disjoint (x * 256) 8 x (x * 256) b refl (omega arith) h)

-- `(x << 1) | 1`
pub bit_or_one : (x : ℕ) → bit_or (x * 2) 1 ≡ x * 2 + 1
bit_or_one x =
    simp bit_or-bitwise (or_digits_disjoint (x * 2) 1 x (x * 2) 1 refl (omega arith) (omega arith))
