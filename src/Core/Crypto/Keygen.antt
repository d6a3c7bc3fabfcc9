-- ===== src/Core/Crypto/Keygen.antt =====
-- crates/lakefs-auth-core/src/crypto/keygen.rs: the shape of access keys. The random numbers are
-- arguments, and standard Base64 a parameter.
use lakefs_auth.Common.{
  ℕ, zero, suc, ◌+◌, ◌-◌, ◌<◌, ◌≡◌, refl, Bool, ◌&&◌, List, [], ◌∷◌, ◌++◌, length, take, drop, any,
  all, arith, true, All, ap, ◌∙◌, ltb, All-append,
}
use lakefs_auth.Common
use lakefs_auth.Std.Order.{Text}
use lakefs_auth.Std.Str.{codes, len, starts_with, ends_with}
use lakefs_auth.Std.Utf8.{as_bytes}
use lakefs_auth.Std.Ascii.{IsAscii, as_bytes-IsAscii}

abbrev pub akia_alphabet : List ℕ
akia_alphabet = codes "ABCDEFGHIJKLMNOPQRSTUVWXYZ234567"

abbrev pub access_key_prefix : Text
access_key_prefix = codes "AKIAJ"

abbrev pub access_key_suffix : Text
access_key_suffix = codes "Q"

abbrev pub access_key_random_len : ℕ
access_key_random_len = 14

abbrev pub secret_key_bytes : ℕ
secret_key_bytes = 30

-- `list[index]`
abbrev pub get_elem : {A : Type 0} (xs : List A) (index : ℕ) → index < length xs → A
get_elem [] index h = absurd (omega arith)
get_elem (x ∷ xs) zero h = x
get_elem (x ∷ xs) (suc index) h = get_elem xs index (omega arith)

-- What `rng.random_range(0..AKIA_ALPHABET.len())` answers.
abbrev pub Index : Type 0
Index = (index : ℕ) × (index < length akia_alphabet)

-- The loop of `new_access_key_id`: `draw` is what the generator answers, draw by draw.
unfoldable pub random_part : ℕ → (ℕ → Index) → Text
random_part zero draw = []
random_part (suc n) draw = get_elem akia_alphabet (draw n).0 (draw n).1 ∷ random_part n draw

unfoldable pub new_access_key_id : (ℕ → Index) → Text
unfolding random_part
new_access_key_id draw =
    access_key_prefix ++ (random_part access_key_random_len draw ++ access_key_suffix)

-- `bytes` is what the generator filled in: `secret_key_bytes` of them.
abbrev pub new_secret_access_key : (List ℕ → Text) → List ℕ → Text
new_secret_access_key encode bytes = encode bytes

unfoldable pub is_well_formed_access_key_id : Text → Bool
unfolding len starts_with ends_with as_bytes
is_well_formed_access_key_id id =
    Common.◌==◌ (len id) (len access_key_prefix + access_key_random_len + len access_key_suffix)
    && starts_with id access_key_prefix
    && ends_with id access_key_suffix
    && all (λ b. any (λ a. Common.◌==◌ a b) akia_alphabet)
        (take (len id - len access_key_suffix - len access_key_prefix)
          (drop (len access_key_prefix) (as_bytes id)))

abbrev is_letter : ℕ → Bool
is_letter b = any (λ a. Common.◌==◌ a b) akia_alphabet

abbrev IsLetter : ℕ → Type 0
IsLetter b = (is_letter b ≡ true) × (b < 0x80)

get_elem-All {ℓ} :
    {A : Type 0} (P : A → Type ℓ) (xs : List A) (index : ℕ) (h : index < length xs)
    → All P xs
    → P (get_elem xs index h)
get_elem-All P [] index h all = absurd (omega arith)
get_elem-All P (x ∷ xs) zero h (px, all) = px
get_elem-All P (x ∷ xs) (suc index) h (px, all) = get_elem-All P xs index (omega arith) all

all-IsLetter : (xs : List ℕ) → all (λ b. is_letter b && ltb b 0x80) xs ≡ true → All IsLetter xs
all-IsLetter [] h = tt
all-IsLetter (x ∷ xs) h = ground (arith, h, all-IsLetter xs)

All-IsLetter : (xs : List ℕ) → All IsLetter xs → all is_letter xs ≡ true
All-IsLetter [] h = refl
All-IsLetter (x ∷ xs) ((h, _), hs) = ground (arith, h, All-IsLetter xs hs)

akia_alphabet-IsLetter : All IsLetter akia_alphabet
akia_alphabet-IsLetter = all-IsLetter akia_alphabet refl

len-IsAscii : (s : Text) → IsAscii s → len s ≡ length s
unfolding len
len-IsAscii [] h = refl
len-IsAscii (c ∷ s) (hc, h) = ground (arith, hc, len-IsAscii s h)

random_part-IsLetter : (n : ℕ) (draw : ℕ → Index) → All IsLetter (random_part n draw)
unfolding random_part
random_part-IsLetter zero draw = tt
random_part-IsLetter (suc n) draw = (
  get_elem-All IsLetter akia_alphabet (draw n).0 (draw n).1 akia_alphabet-IsLetter,
  random_part-IsLetter n draw,
)

length-random_part : (n : ℕ) (draw : ℕ → Index) → length (random_part n draw) ≡ n
unfolding random_part
length-random_part zero draw = refl
length-random_part (suc n) draw = ap suc (length-random_part n draw)

All-IsAscii : (xs : List ℕ) → All IsLetter xs → IsAscii xs
All-IsAscii [] h = tt
All-IsAscii (x ∷ xs) ((_, h), hs) = (h, All-IsAscii xs hs)

shape-IsAscii :
    (middle : Text) → IsAscii middle → IsAscii (access_key_prefix ++ (middle ++ access_key_suffix))
shape-IsAscii middle h =
    All-append (λ c. c < 0x80) access_key_prefix (middle ++ access_key_suffix) (omega arith)
      (All-append (λ c. c < 0x80) middle access_key_suffix h (omega arith))

new_access_key_id-IsAscii : (draw : ℕ → Index) → IsAscii (new_access_key_id draw)
unfolding new_access_key_id
new_access_key_id-IsAscii draw =
    shape-IsAscii (random_part 14 draw)
      (All-IsAscii (random_part 14 draw) (random_part-IsLetter 14 draw))

-- A generated access key id has the shape that the check wants.
pub new_access_key_id-is_well_formed_access_key_id :
    (draw : ℕ → Index) → is_well_formed_access_key_id (new_access_key_id draw) ≡ true
unfolding is_well_formed_access_key_id
new_access_key_id-is_well_formed_access_key_id draw =
    let id = new_access_key_id draw in
    let ascii = new_access_key_id-IsAscii draw in
    let bytes : as_bytes id ≡ id = as_bytes-IsAscii id ascii in
    let size : len id ≡ 20 = len-IsAscii id ascii ∙ unfold new_access_key_id random_part in refl in
    let front : starts_with id access_key_prefix ≡ true =
      unfold starts_with new_access_key_id in refl in
    let back : ends_with id access_key_suffix ≡ true =
      unfold starts_with ends_with new_access_key_id random_part in refl in
    let middle : take 14 (drop 5 id) ≡ random_part 14 draw =
      unfold new_access_key_id random_part in refl in
    rw (bytes, size, front, back)
      (ap (all is_letter) middle
        ∙ All-IsLetter (random_part 14 draw) (random_part-IsLetter 14 draw))
