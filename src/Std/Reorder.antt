-- ===== src/Std/Reorder.antt =====
-- Lists that hold the same elements in some order, and what a sort or a test makes of them.
use lakefs_auth.Common.{
  ◌≡◌, refl, sym, ap, ◌∙◌, true, false, inl, inr, List, [], ◌∷◌, All, map, Ordering, arith,
  Bool-cases,
}
use lakefs_auth.Std.Order.{
  Text, text_ord, cmp_text, cmp_text-eq_of, cmp_text-lt_trans, cmp_text-lt_of_gt, cmp_text-gt_of_lt,
  ◌<?◌, is_lt,
}
use lakefs_auth.Std.Sort.{sort, insert_sorted}

-- The second list holds elements that match those of the first, in some order.
pub data Reordered {A : Type 0} (R : A → A → Type 0) : List A → List A → Type 0 where
  nil : Reordered R [] []
  cons : {a b : A} {xs ys : List A} → R a b → Reordered R xs ys → Reordered R (a ∷ xs) (b ∷ ys)
  swap : {a b : A} {xs : List A} → Reordered R (a ∷ b ∷ xs) (b ∷ a ∷ xs)
  trans : {xs ys zs : List A} → Reordered R xs ys → Reordered R ys zs → Reordered R xs zs

module _ {A : Type 0} (R : A → A → Type 0) where
  -- What holds of an element holds of those that match it.
  pub All-Reordered :
      (P : A → Type 0)
      → ((a b : A) → R a b → P a → P b)
      → (xs ys : List A) → Reordered R xs ys
      → All P xs
      → All P ys
  All-Reordered P step _ _ nil h = tt
  All-Reordered P step _ _ (cons {a} {b} {xs} {ys} r p) (ha, h) =
      (step a b r ha, All-Reordered P step xs ys p h)
  All-Reordered P step _ _ swap (ha, (hb, h)) = (hb, (ha, h))
  All-Reordered P step _ _ (trans {xs} {ys} {zs} p q) h =
      All-Reordered P step ys zs q (All-Reordered P step xs ys p h)

  -- A function that does not tell matching elements apart.
  pub map-Reordered :
      {B : Type 0} (f : A → B)
      → ((a b : A) → R a b → f a ≡ f b)
      → (xs ys : List A) → Reordered R xs ys
      → Reordered (◌≡◌ {A = B}) (map f xs) (map f ys)
  map-Reordered f same _ _ nil = nil
  map-Reordered f same _ _ (cons {a} {b} {xs} {ys} r p) =
      cons (same a b r) (map-Reordered f same xs ys p)
  map-Reordered f same _ _ swap = swap
  map-Reordered f same _ _ (trans {xs} {ys} {zs} p q) =
      trans (map-Reordered f same xs ys p) (map-Reordered f same ys zs q)

is_lt-lt : (o : Ordering) → is_lt o ≡ true → o ≡ Ordering.lt
is_lt-lt Ordering.lt h = refl
is_lt-lt Ordering.eq h = absurd (ground arith)
is_lt-lt Ordering.gt h = absurd (ground arith)

-- Of two texts one is below the other, or they are the same.
data Comparison (x y : Text) : Type 0 where
  below : (x <? y) ≡ true → (y <? x) ≡ false → Comparison x y
  above : (x <? y) ≡ false → (y <? x) ≡ true → Comparison x y
  equal : x ≡ y → Comparison x y

compare_by : (x y : Text) (o : Ordering) → cmp_text x y ≡ o → Comparison x y
compare_by x y Ordering.lt e = below (ground (arith, e)) (ground (arith, cmp_text-gt_of_lt x y e))
compare_by x y Ordering.gt e = above (ground (arith, e)) (ground (arith, cmp_text-lt_of_gt x y e))
compare_by x y Ordering.eq e = equal (cmp_text-eq_of x y e)

lt_trans : (x y z : Text) → (x <? y) ≡ true → (y <? z) ≡ true → (x <? z) ≡ true
lt_trans x y z h k =
    ap is_lt (cmp_text-lt_trans x y z (is_lt-lt (cmp_text x y) h) (is_lt-lt (cmp_text y z) k))

insert_sorted_below :
    (x y : Text) (zs : List Text)
    → (x <? y) ≡ true
    → (y <? x) ≡ false
    → insert_sorted x (insert_sorted y zs) ≡ insert_sorted y (insert_sorted x zs)
insert_sorted_below x y [] h k = ground (arith, h, k)
insert_sorted_below x y (z ∷ zs) h k = elim (Bool-cases (z <? x)) [
  | inl first ↦ ground (arith, h, k, first, lt_trans z x y first h, insert_sorted_below x y zs h k)
  | inr later ↦ elim (Bool-cases (z <? y)) [
    | inl between ↦ ground (arith, h, k, later, between)
    | inr last ↦ ground (arith, h, k, later, last)
  ]
]

insert_sorted_comm :
    (x y : Text) (zs : List Text)
    → insert_sorted x (insert_sorted y zs) ≡ insert_sorted y (insert_sorted x zs)
insert_sorted_comm x y zs = elim (compare_by x y (cmp_text x y) refl) [
  | below h k ↦ insert_sorted_below x y zs h k
  | above h k ↦ sym (insert_sorted_below y x zs k h)
  | equal e ↦
      ap (λ t. insert_sorted t (insert_sorted y zs)) e
      ∙ ap (λ t. insert_sorted y (insert_sorted t zs)) (sym e)
]

pub sort-Reordered : (xs ys : List Text) → Reordered (◌≡◌ {A = Text}) xs ys → sort xs ≡ sort ys
unfolding sort
sort-Reordered _ _ nil = refl
sort-Reordered _ _ (cons {a} {b} {xs} {ys} e p) =
    ap (λ t. insert_sorted t (sort xs)) e ∙ ap (insert_sorted b) (sort-Reordered xs ys p)
sort-Reordered _ _ (swap {a} {b} {xs}) = insert_sorted_comm a b (sort xs)
sort-Reordered _ _ (trans {xs} {ys} {zs} p q) = sort-Reordered xs ys p ∙ sort-Reordered ys zs q
