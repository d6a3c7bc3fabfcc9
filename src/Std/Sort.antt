-- ===== src/Std/Sort.antt =====
-- `Vec<String>::sort` and `dedup`.
use lakefs_auth.Common.{
  ◌≡◌, refl, sym, ◌⊎◌, inl, inr, Bool, true, false, ◌||◌, List, [], ◌∷◌, All, any, Ordering, arith,
  Bool-cases, if◌then◌else◌,
}
use lakefs_auth.Std.Order.{
  Text, text_ord, cmp_text, cmp_text-eq_of, cmp_text-lt_trans, cmp_text-lt_of_gt, ◌==◌, ◌<?◌,
  ==_iff, is_lt,
}

-- `list.contains(&text)`
abbrev pub has : List Text → Text → Bool
has list text = any (λ s. s == text) list

abbrev pub insert_sorted : Text → List Text → List Text
insert_sorted x [] = x ∷ []
insert_sorted x (y ∷ ys) = let rest = insert_sorted x ys in if y <? x then y ∷ rest else x ∷ y ∷ ys

unfoldable pub sort : List Text → List Text
sort [] = []
sort (x ∷ xs) = insert_sorted x (sort xs)

abbrev pub push_distinct : Text → List Text → List Text
push_distinct x [] = x ∷ []
push_distinct x (y ∷ ys) = if x == y then y ∷ ys else x ∷ y ∷ ys

unfoldable pub dedup : List Text → List Text
dedup [] = []
dedup (x ∷ xs) = push_distinct x (dedup xs)

module _ {ℓ} (P : Text → Type ℓ) where
  All-insert_sorted : (x : Text) (xs : List Text) → P x → All P xs → All P (insert_sorted x xs)
  All-insert_sorted x [] hx h = (hx, tt)
  All-insert_sorted x (y ∷ ys) hx (hy, h) = elim (Bool-cases (y <? x)) [
    | inl below ↦ rw below (hy, All-insert_sorted x ys hx h)
    | inr above ↦ rw above (hx, (hy, h))
  ]

  pub All-sort : (xs : List Text) → All P xs → All P (sort xs)
  unfolding sort
  All-sort [] h = tt
  All-sort (x ∷ xs) (hx, h) = All-insert_sorted x (sort xs) hx (All-sort xs h)

  All-push_distinct : (x : Text) (xs : List Text) → P x → All P xs → All P (push_distinct x xs)
  All-push_distinct x [] hx h = (hx, tt)
  All-push_distinct x (y ∷ ys) hx (hy, h) = elim (Bool-cases (x == y)) [
    | inl same ↦ rw same (hy, h)
    | inr other ↦ rw other (hx, (hy, h))
  ]

  pub All-dedup : (xs : List Text) → All P xs → All P (dedup xs)
  unfolding dedup
  All-dedup [] h = tt
  All-dedup (x ∷ xs) (hx, h) = All-push_distinct x (dedup xs) hx (All-dedup xs h)

has-insert_sorted :
    (x y : Text) (xs : List Text) → has (insert_sorted x xs) y ≡ (x == y) || has xs y
has-insert_sorted x y [] = refl
has-insert_sorted x y (z ∷ xs) = ground (arith, has-insert_sorted x y xs)

pub has-sort : (xs : List Text) (y : Text) → has (sort xs) y ≡ has xs y
unfolding sort
has-sort [] y = refl
has-sort (x ∷ xs) y = ground (arith, has-insert_sorted x y (sort xs), has-sort xs y)

has-push_distinct :
    (x y : Text) (xs : List Text) → has (push_distinct x xs) y ≡ (x == y) || has xs y
has-push_distinct x y [] = refl
has-push_distinct x y (z ∷ xs) = elim (Bool-cases (x == z)) [
  | inl same ↦ (let e : x ≡ z = (==_iff x z).0 same in ground (arith, same, e))
  | inr other ↦ ground (arith, other)
]

pub has-dedup : (xs : List Text) (y : Text) → has (dedup xs) y ≡ has xs y
unfolding dedup
has-dedup [] y = refl
has-dedup (x ∷ xs) y = ground (arith, has-push_distinct x y (dedup xs), has-dedup xs y)

-- No element is below an earlier one, and each is above every earlier one.
abbrev IsBelow : Text → Text → Type 0
IsBelow x y = (cmp_text x y ≡ Ordering.lt) ⊎ (x ≡ y)

abbrev IsSorted : List Text → Type 0
IsSorted [] = Unit
IsSorted (x ∷ xs) = All (IsBelow x) xs × IsSorted xs

abbrev pub IsIncreasing : List Text → Type 0
IsIncreasing [] = Unit
IsIncreasing (x ∷ xs) = All (λ y. cmp_text x y ≡ Ordering.lt) xs × IsIncreasing xs

IsBelow-trans : (x y z : Text) → IsBelow x y → IsBelow y z → IsBelow x z
IsBelow-trans x y z (inl h) (inl k) = inl (cmp_text-lt_trans x y z h k)
IsBelow-trans x y z (inl h) (inr k) = inl (rw (← k) h)
IsBelow-trans x y z (inr h) k = rw h k

All-IsBelow : (x y : Text) (zs : List Text) → IsBelow x y → All (IsBelow y) zs → All (IsBelow x) zs
All-IsBelow x y [] h k = tt
All-IsBelow x y (z ∷ zs) h (hz, k) = (IsBelow-trans x y z h hz, All-IsBelow x y zs h k)

lt-true : (o : Ordering) → is_lt o ≡ true → o ≡ Ordering.lt
lt-true Ordering.lt h = refl
lt-true Ordering.eq h = ground arith
lt-true Ordering.gt h = ground arith

lt-false : (o : Ordering) → is_lt o ≡ false → (o ≡ Ordering.eq) ⊎ (o ≡ Ordering.gt)
lt-false Ordering.lt h = ground arith
lt-false Ordering.eq h = inl refl
lt-false Ordering.gt h = inr refl

not-IsBelow : (x y : Text) → (y <? x) ≡ false → IsBelow x y
not-IsBelow x y h = elim (lt-false (cmp_text y x) h) [
  | inl e ↦ inr (sym (cmp_text-eq_of y x e))
  | inr e ↦ inl (cmp_text-lt_of_gt y x e)
]

lt-IsBelow : (x y : Text) → (y <? x) ≡ true → IsBelow y x
lt-IsBelow x y h = inl (lt-true (cmp_text y x) h)

insert_sorted-IsSorted : (x : Text) (xs : List Text) → IsSorted xs → IsSorted (insert_sorted x xs)
insert_sorted-IsSorted x [] h = (tt, tt)
insert_sorted-IsSorted x (y ∷ ys) (hy, h) = elim (Bool-cases (y <? x)) [
  | inl under ↦
      rw under (
        All-insert_sorted (IsBelow y) x ys (lt-IsBelow x y under) hy,
        insert_sorted-IsSorted x ys h,
      )
  | inr over ↦
      let first = not-IsBelow x y over in rw over ((first, All-IsBelow x y ys first hy), (hy, h))
]

sort-IsSorted : (xs : List Text) → IsSorted (sort xs)
unfolding sort
sort-IsSorted [] = tt
sort-IsSorted (x ∷ xs) = insert_sorted-IsSorted x (sort xs) (sort-IsSorted xs)

-- In increasing order an element below the first one is below all.
above_first :
    (x y : Text) (ys : List Text)
    → cmp_text x y ≡ Ordering.lt
    → All (λ z. cmp_text y z ≡ Ordering.lt) ys
    → All (λ z. cmp_text x z ≡ Ordering.lt) ys
above_first x y [] h k = tt
above_first x y (z ∷ ys) h (hz, k) = (cmp_text-lt_trans x y z h hz, above_first x y ys h k)

push_distinct-IsIncreasing :
    (x : Text) (ys : List Text)
    → All (IsBelow x) ys
    → IsIncreasing ys
    → IsIncreasing (push_distinct x ys)
push_distinct-IsIncreasing x [] h k = (tt, tt)
push_distinct-IsIncreasing x (y ∷ ys) (hy, h) (ky, k) = elim (Bool-cases (x == y)) [
  | inl same ↦ rw same (ky, k)
  | inr other ↦ rw other (elim hy [
    | inl lt ↦ ((lt, above_first x y ys lt ky), (ky, k))
    | inr e ↦ absurd (ground (arith, other, (==_iff x y).1 e))
  ])
]

dedup-IsIncreasing : (xs : List Text) → IsSorted xs → IsIncreasing (dedup xs)
unfolding dedup
dedup-IsIncreasing [] h = tt
dedup-IsIncreasing (x ∷ xs) (hx, h) =
    push_distinct-IsIncreasing x (dedup xs) (All-dedup (IsBelow x) xs hx) (dedup-IsIncreasing xs h)

-- A list that was sorted and rid of its repeats is increasing.
pub dedup-sort : (xs : List Text) → IsIncreasing (dedup (sort xs))
dedup-sort xs = dedup-IsIncreasing (sort xs) (sort-IsSorted xs)
