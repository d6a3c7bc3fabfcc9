-- ===== src/Std/BTreeMap/Laws.antt =====
-- What each operation does to a lookup, and that each keeps the order.
use lakefs_auth.Common.{
  Ordering, ◌≡◌, refl, ◌⊎◌, inl, inr, true, find, Bool-cases, Bool, Option, none, some, [], ◌∷◌,
  arith, if◌then◌else◌,
}
use lakefs_auth.Std.Order.{Ord, ◌==◌, ==_iff}
use lakefs_auth.Std.BTreeMap.{
  BTreeMap, values, get, insert, insert_at, remove, retain, Above, IsSorted,
}

abbrev pub keep_if {κ} : {V : Type κ} → (V → Bool) → Option V → Option V
keep_if p none = none
keep_if p (some v) = if p v then some v else none

compare_cases : (c : Ordering) → (c ≡ Ordering.lt) ⊎ ((c ≡ Ordering.eq) ⊎ (c ≡ Ordering.gt))
compare_cases Ordering.lt = inl refl
compare_cases Ordering.eq = inr (inl refl)
compare_cases Ordering.gt = inr (inr refl)

module _ {ℓ κ} {K : Type ℓ} {V : Type κ} ⦃o : Ord K⦄ where
  pub get-insert :
      (j k : K) (v : V) (m : BTreeMap K V)
      → get j (insert k v m) ≡ (if k == j then some v else get j m)
  unfolding get insert insert_at
  get-insert j k v [] = refl
  get-insert j k v ((i, w) ∷ m) =
      ground (arith, get-insert j k v m, o.eq_of k i, o.cmp_self j, o.eq_of i j, o.eq_of k j)

  Above-trans : (k j : K) (m : BTreeMap K V) → o.cmp k j ≡ Ordering.lt → Above j m → Above k m
  Above-trans k j [] h a = tt
  Above-trans k j ((i, w) ∷ m) h a = (o.lt_trans k j i h a.0, Above-trans k j m h a.1)

  pub get_of_Above : (k : K) (m : BTreeMap K V) → Above k m → get k m ≡ none
  unfolding get
  get_of_Above k [] a = refl
  get_of_Above k ((j, w) ∷ m) a = ground (arith, get_of_Above k m, o.gt_of_lt k j)

  pub get-remove :
      (j k : K) (m : BTreeMap K V)
      → IsSorted m
      → get j (remove k m) ≡ (if k == j then none else get j m)
  unfolding get remove
  get-remove j k [] s = ground arith
  get-remove j k ((i, w) ∷ m) s = ground (
    arith,
    get-remove j k m,
    o.eq_of i k,
    o.eq_of k j,
    o.eq_of i j,
    o.cmp_self j,
    get_of_Above i m,
  )

  pub get-retain :
      (p : K → V → Bool) (j : K) (m : BTreeMap K V)
      → IsSorted m
      → get j (retain p m) ≡ keep_if (p j) (get j m)
  unfolding get retain
  get-retain p j [] s = refl
  get-retain p j ((i, w) ∷ m) s =
      ground (arith, get-retain p j m, o.eq_of i j, o.cmp_self j, get_of_Above i m)

  Above-insert :
      (i k : K) (v : V) (m : BTreeMap K V)
      → o.cmp i k ≡ Ordering.lt
      → Above i m
      → Above i (insert k v m)
  unfolding insert insert_at
  Above-insert i k v [] h a = (h, tt)
  Above-insert i k v ((j, w) ∷ m) h a = ground (arith, Above-insert i k v m)

  pub insert-IsSorted : (k : K) (v : V) (m : BTreeMap K V) → IsSorted m → IsSorted (insert k v m)
  unfolding insert insert_at
  insert-IsSorted k v [] s = (tt, tt)
  insert-IsSorted k v ((j, w) ∷ m) s =
      ground (arith, insert-IsSorted k v m, o.lt_of_gt k j, Above-insert j k v m, Above-trans k j m)

  Above-remove : (i k : K) (m : BTreeMap K V) → Above i m → Above i (remove k m)
  unfolding remove
  Above-remove i k [] a = tt
  Above-remove i k ((j, w) ∷ m) a = ground (arith, Above-remove i k m)

  pub remove-IsSorted : (k : K) (m : BTreeMap K V) → IsSorted m → IsSorted (remove k m)
  unfolding remove
  remove-IsSorted k [] s = tt
  remove-IsSorted k ((j, w) ∷ m) s = ground (arith, remove-IsSorted k m, Above-remove j k m)

  Above-retain : (p : K → V → Bool) (i : K) (m : BTreeMap K V) → Above i m → Above i (retain p m)
  unfolding retain
  Above-retain p i [] a = tt
  Above-retain p i ((j, w) ∷ m) a = ground (arith, Above-retain p i m)

  pub retain-IsSorted : (p : K → V → Bool) (m : BTreeMap K V) → IsSorted m → IsSorted (retain p m)
  unfolding retain
  retain-IsSorted p [] s = tt
  retain-IsSorted p ((j, w) ∷ m) s = ground (arith, retain-IsSorted p m, Above-retain p j m)

  -- An entry that is there already is put in its place.
  pub insert_present :
      (k : K) (v : V) (m : BTreeMap K V) → IsSorted m → get k m ≡ some v → insert k v m ≡ m
  unfolding get insert insert_at
  insert_present k v [] sorted h = absurd (ground arith)
  insert_present k v ((j, w) ∷ m) (above, sorted) h = elim (compare_cases (o.cmp k j)) [
    | inl lt ↦ absurd (
        ground (
          arith,
          h,
          lt,
          o.gt_of_lt k j lt,
          get_of_Above k m (Above-trans k j m lt above),
          o.eq_of j k,
        ))
    | inr (inl same) ↦ ground (arith, h, same, o.eq_of k j same, o.cmp_self k)
    | inr (inr gt) ↦ ground (arith, h, gt, o.lt_of_gt k j gt, insert_present k v m sorted)
  ]

  only_later :
      (p : V → Bool) (k j : K) (w : V) (m : BTreeMap K V)
      → Above j m
      → ((i : K) (u : V) → get i ((j, w) ∷ m) ≡ some u → p u ≡ true → i ≡ k)
      → (i : K) (u : V) → get i m ≡ some u
      → p u ≡ true
      → i ≡ k
  unfolding get
  only_later p k j w m above only i u h passed = elim (Bool-cases (j == i)) [
    | inl same ↦
        (let e : j ≡ i = (==_iff j i).0 same in
          let none_there : get i m ≡ none = get_of_Above i m (rw (← e) above) in
          absurd (ground (arith, h, none_there)))
    | inr other ↦ only i u (ground (arith, other, h)) passed
  ]

  -- The only entry that passes a test is the one that a search finds.
  pub find-values :
      (p : V → Bool) (k : K) (v : V) (m : BTreeMap K V)
      → IsSorted m
      → get k m ≡ some v
      → p v ≡ true
      → ((j : K) (u : V) → get j m ≡ some u → p u ≡ true → j ≡ k)
      → find p (values m) ≡ some v
  unfolding get
  find-values p k v [] sorted h passed only = absurd (ground arith)
  find-values p k v ((j, w) ∷ m) (above, sorted) h passed only = elim (Bool-cases (p w)) [
    | inl first ↦
        (let e : j ≡ k = only j w (ground (arith, o.cmp_self j)) first in
          ground (arith, first, h, e, o.cmp_self j, o.cmp_self k))
    | inr later ↦ elim (Bool-cases (j == k)) [
      | inl here ↦ absurd (ground (arith, here, h, passed, later))
      | inr other ↦
          (let rest =
              find-values p k v m sorted (ground (arith, other, h)) passed
                (only_later p k j w m above only) in
            ground (arith, later, rest))
    ]
  ]
