-- ===== src/Authn/Gob/Ints.antt =====
-- crates/lakefs-authn/src/lakefs/gob.rs: the integers and the strings, read back.
use native.Mathlib.Nat.{pow-suc}
use lakefs_auth.Common.{
  ℕ, zero, suc, ◌+◌, ◌-◌, ◌*◌, ◌/◌, ◌%◌, ◌^◌, ◌≤◌, ◌<◌, ◌≡◌, refl, ap, ◌∙◌, none, some, List, [],
  ◌∷◌, ◌++◌, length, take, drop, ltb, arith, Option-cases, Bool-cases, inl, inr, length-append,
  length-drop,
}
use lakefs_auth.Common.Int.{ℤ, pos, negsuc, IsI64}
use lakefs_auth.Std.Bits.{bit_or_byte, bit_or_one}
use lakefs_auth.Std.Result.{ok}
use lakefs_auth.Authn.Gob.{
  be_bytes, be_value, position_nonzero, significant, encode_uint, uint, read_rest, take_bytes,
  first_byte, zigzag, unzigzag, int, encode_int,
}

be_value_step :
    (v b : ℕ) (bytes : List ℕ)
    → v * 256 < 2 ^ 64
    → b < 256
    → be_value v (b ∷ bytes) ≡ be_value (v * 256 + b) bytes
unfolding be_value
be_value_step v b bytes h hb =
    let kept : v * 256 % 2 ^ 64 ≡ v * 256 = omega arith in rw (kept, bit_or_byte v b hb) refl

be_value-be_bytes :
    (n v : ℕ) (bytes : List ℕ)
    → v < 256 ^ n
    → v < 2 ^ 64
    → be_value 0 (be_bytes n v bytes) ≡ be_value v bytes
unfolding be_bytes
be_value-be_bytes zero v bytes h fits =
    let none : 0 ≡ v = omega arith in ap (λ t. be_value t bytes) none
be_value-be_bytes (suc n) v bytes h fits =
    let joined : v / 256 * 256 + v % 256 ≡ v = omega arith in
    be_value-be_bytes n (v / 256) (v % 256 ∷ bytes) (omega (arith, pow-suc 256 n)) (omega arith)
    ∙ be_value_step (v / 256) (v % 256) bytes (omega arith) (omega arith)
    ∙ ap (λ t. be_value t bytes) joined

length-be_bytes : (n v : ℕ) (bytes : List ℕ) → length (be_bytes n v bytes) ≡ n + length bytes
unfolding be_bytes
length-be_bytes zero v bytes = omega arith
length-be_bytes (suc n) v bytes = omega (arith, length-be_bytes n (v / 256) (v % 256 ∷ bytes))

zeros : (bytes : List ℕ) → position_nonzero bytes ≡ none → be_value 0 bytes ≡ 0
unfolding be_value position_nonzero
zeros [] h = refl
zeros (zero ∷ bytes) h = elim (Option-cases (position_nonzero bytes)) [
  | inl e ↦ zeros bytes e
  | inr (i, e) ↦ ground (arith, e)
]
zeros (suc b ∷ bytes) h = ground arith

-- Without its leading zeros a number stays what it is.
drop_zeros :
    (i : ℕ) (bytes : List ℕ)
    → position_nonzero bytes ≡ some i
    → be_value 0 (drop i bytes) ≡ be_value 0 bytes
unfolding be_value position_nonzero
drop_zeros i [] h = ground arith
drop_zeros zero (zero ∷ bytes) h = elim (Option-cases (position_nonzero bytes)) [
  | inl e ↦ ground (arith, e)
  | inr (j, e) ↦ ground (arith, e)
]
drop_zeros (suc i) (zero ∷ bytes) h = elim (Option-cases (position_nonzero bytes)) [
  | inl e ↦ ground (arith, e)
  | inr (j, e) ↦ drop_zeros i bytes (ground (arith, e))
]
drop_zeros zero (suc b ∷ bytes) h = refl
drop_zeros (suc i) (suc b ∷ bytes) h = ground arith

position_nonzero-lt : (i : ℕ) (bytes : List ℕ) → position_nonzero bytes ≡ some i → i < length bytes
unfolding position_nonzero
position_nonzero-lt i [] h = ground arith
position_nonzero-lt zero (b ∷ bytes) h = omega arith
position_nonzero-lt (suc i) (zero ∷ bytes) h = elim (Option-cases (position_nonzero bytes)) [
  | inl e ↦ ground (arith, e)
  | inr (j, e) ↦ omega (arith, position_nonzero-lt i bytes (ground (arith, e)))
]
position_nonzero-lt (suc i) (suc b ∷ bytes) h = ground arith

abbrev pub IsSignificant : ℕ → List ℕ → Type 0
IsSignificant v bytes = (be_value 0 bytes ≡ v) × (1 ≤ length bytes) × (length bytes ≤ 8)

pub significant-IsSignificant : (v : ℕ) → 128 ≤ v → v < 2 ^ 64 → IsSignificant v (significant v)
unfolding significant
significant-IsSignificant v low fits =
    let bytes = be_bytes 8 v [] in
    let value : be_value 0 bytes ≡ v =
      be_value-be_bytes 8 v [] (omega arith) fits ∙ unfold be_value in refl in
    let size : length bytes ≡ 8 = length-be_bytes 8 v [] in
    elim (Option-cases (position_nonzero bytes)) [
      | inl e ↦ absurd (omega (arith, value, zeros bytes e))
      | inr (i, e) ↦ rw e (
        drop_zeros i bytes e ∙ value,
        omega (arith, size, position_nonzero-lt i bytes e, length-drop i bytes),
        omega (arith, size, length-drop i bytes),
      )
    ]

take-append : {A : Type 0} (xs ys : List A) → take (length xs) (xs ++ ys) ≡ xs
take-append [] [] = refl
take-append [] (y ∷ ys) = refl
take-append (x ∷ xs) ys = ap (λ t. x ∷ t) (take-append xs ys)

drop-append : {A : Type 0} (xs ys : List A) → drop (length xs) (xs ++ ys) ≡ ys
drop-append [] [] = refl
drop-append [] (y ∷ ys) = refl
drop-append (x ∷ xs) ys = drop-append xs ys

pub take_bytes-append :
    (n : ℕ) (bytes rest : List ℕ)
    → length bytes ≡ n
    → take_bytes n (bytes ++ rest) ≡ ok (bytes, rest)
unfolding take_bytes
take_bytes-append n bytes rest e =
    ground (arith, e, length-append bytes rest, take-append bytes rest, drop-append bytes rest)

read_significant :
    (v : ℕ) (bytes rest : List ℕ)
    → IsSignificant v bytes
    → uint ((256 - length bytes) ∷ (bytes ++ rest)) ≡ ok (v, rest)
unfolding uint read_rest first_byte
read_significant v bytes rest (value, low, high) =
    ground (arith, value, take_bytes-append (256 - (256 - length bytes)) bytes rest (omega arith))

-- Every unsigned 64-bit number is read back from its encoding, whatever bytes follow.
pub uint-encode_uint :
    (v : ℕ) (rest : List ℕ) → v < 2 ^ 64 → uint (encode_uint v ++ rest) ≡ ok (v, rest)
unfolding encode_uint
uint-encode_uint v rest fits = elim (Bool-cases (ltb v 128)) [
  | inl small ↦ rw small (unfold uint first_byte in ground arith)
  | inr large ↦
      rw large
        (read_significant v (significant v) rest (significant-IsSignificant v (ground arith) fits))
]

pub length-encode_uint : (v : ℕ) → v < 2 ^ 64 → length (encode_uint v) ≤ 9
unfolding encode_uint
length-encode_uint v fits = elim (Bool-cases (ltb v 128)) [
  | inl small ↦ rw small (omega arith)
  | inr large ↦
      rw large
        (let (value, low, high) = significant-IsSignificant v (ground arith) fits in omega arith)
]

zigzag-negsuc : (n : ℕ) → n < 2 ^ 63 → zigzag (negsuc n) ≡ n * 2 + 1
unfolding zigzag
zigzag-negsuc n h = let kept : n * 2 % 2 ^ 64 ≡ n * 2 = omega arith in rw (kept, bit_or_one n) refl

zigzag-lt : (z : ℤ) → IsI64 z → zigzag z < 2 ^ 64
unfolding zigzag
zigzag-lt (pos n) (h, k) = omega arith
zigzag-lt (negsuc n) (h, k) = omega (arith, zigzag-negsuc n (omega arith))

unzigzag-zigzag : (z : ℤ) → IsI64 z → unzigzag (zigzag z) ≡ z
unfolding unzigzag
unzigzag-zigzag (pos n) (h, k) =
    let kept : zigzag (pos n) ≡ n * 2 = unfold zigzag in omega arith in rw kept (ground arith)
unzigzag-zigzag (negsuc n) (h, k) = rw (zigzag-negsuc n (omega arith)) (ground arith)

-- Every signed 64-bit number is read back from its encoding, whatever bytes follow.
pub int-encode_int : (z : ℤ) (rest : List ℕ) → IsI64 z → int (encode_int z ++ rest) ≡ ok (z, rest)
unfolding int encode_int
int-encode_int z rest h =
    rw (uint-encode_uint (zigzag z) rest (zigzag-lt z h), unzigzag-zigzag z h) refl
