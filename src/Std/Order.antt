-- ===== src/Std/Order.antt =====
-- `Ord`: a three-way comparison with its laws, for strings and for pairs of strings.
use lakefs_auth.Common.{
  ℕ, Ordering, compare, ◌≡◌, refl, ◌↔◌, Bool, true, false, List, [], ◌∷◌, arith,
}

pub record Ord {ℓ} (A : Type ℓ) : Type ℓ where
  pub cmp : A → A → Ordering
  pub eq_of : (a b : A) → cmp a b ≡ Ordering.eq → a ≡ b
  pub cmp_self : (a : A) → cmp a a ≡ Ordering.eq
  pub gt_of_lt : (a b : A) → cmp a b ≡ Ordering.lt → cmp b a ≡ Ordering.gt
  pub lt_of_gt : (a b : A) → cmp a b ≡ Ordering.gt → cmp b a ≡ Ordering.lt
  pub lt_trans : (a b c : A) → cmp a b ≡ Ordering.lt → cmp b c ≡ Ordering.lt → cmp a c ≡ Ordering.lt

-- `a.cmp(b).then(...)`
abbrev pub then_cmp : Ordering → Ordering → Ordering
then_cmp Ordering.lt o = Ordering.lt
then_cmp Ordering.eq o = o
then_cmp Ordering.gt o = Ordering.gt

-- A string is the list of its code points. Rust compares strings by their UTF-8 bytes, which is
-- the order of the code points.
abbrev pub Text : Type 0
Text = List ℕ

unfoldable pub cmp_text : Text → Text → Ordering
cmp_text [] [] = Ordering.eq
cmp_text [] (d ∷ t) = Ordering.lt
cmp_text (c ∷ s) [] = Ordering.gt
cmp_text (c ∷ s) (d ∷ t) = then_cmp (compare c d) (cmp_text s t)

pub cmp_text-eq_of : (s t : Text) → cmp_text s t ≡ Ordering.eq → s ≡ t
unfolding cmp_text
cmp_text-eq_of [] [] h = refl
cmp_text-eq_of [] (d ∷ t) h = cc
cmp_text-eq_of (c ∷ s) [] h = cc
cmp_text-eq_of (c ∷ s) (d ∷ t) h = ground (arith, cmp_text-eq_of s t)

pub cmp_text_self : (s : Text) → cmp_text s s ≡ Ordering.eq
unfolding cmp_text
cmp_text_self [] = refl
cmp_text_self (c ∷ s) = ground (arith, cmp_text_self s)

pub cmp_text-gt_of_lt : (s t : Text) → cmp_text s t ≡ Ordering.lt → cmp_text t s ≡ Ordering.gt
unfolding cmp_text
cmp_text-gt_of_lt [] [] h = cc
cmp_text-gt_of_lt [] (d ∷ t) h = refl
cmp_text-gt_of_lt (c ∷ s) [] h = cc
cmp_text-gt_of_lt (c ∷ s) (d ∷ t) h = ground (arith, cmp_text-gt_of_lt s t)

pub cmp_text-lt_of_gt : (s t : Text) → cmp_text s t ≡ Ordering.gt → cmp_text t s ≡ Ordering.lt
unfolding cmp_text
cmp_text-lt_of_gt [] [] h = cc
cmp_text-lt_of_gt [] (d ∷ t) h = cc
cmp_text-lt_of_gt (c ∷ s) [] h = refl
cmp_text-lt_of_gt (c ∷ s) (d ∷ t) h = ground (arith, cmp_text-lt_of_gt s t)

pub cmp_text-lt_trans :
    (s t u : Text)
    → cmp_text s t ≡ Ordering.lt
    → cmp_text t u ≡ Ordering.lt
    → cmp_text s u ≡ Ordering.lt
unfolding cmp_text
cmp_text-lt_trans [] [] u h k = cc
cmp_text-lt_trans [] (d ∷ t) [] h k = cc
cmp_text-lt_trans [] (d ∷ t) (e ∷ u) h k = refl
cmp_text-lt_trans (c ∷ s) [] u h k = cc
cmp_text-lt_trans (c ∷ s) (d ∷ t) [] h k = cc
cmp_text-lt_trans (c ∷ s) (d ∷ t) (e ∷ u) h k = ground (arith, cmp_text-lt_trans s t u)

instance abbrev pub text_ord : Ord Text
text_ord = record {
  cmp = cmp_text;
  eq_of = cmp_text-eq_of;
  cmp_self = cmp_text_self;
  gt_of_lt = cmp_text-gt_of_lt;
  lt_of_gt = cmp_text-lt_of_gt;
  lt_trans = cmp_text-lt_trans;
}

-- The order of pairs, `(A, B): Ord`.
abbrev pub cmp_pair : Text × Text → Text × Text → Ordering
cmp_pair (a, b) (c, d) = then_cmp (cmp_text a c) (cmp_text b d)

pub cmp_pair-eq_of : (p q : Text × Text) → cmp_pair p q ≡ Ordering.eq → p ≡ q
cmp_pair-eq_of (a, b) (c, d) h = ground (arith, cmp_text-eq_of a c, cmp_text-eq_of b d)

pub cmp_pair_self : (p : Text × Text) → cmp_pair p p ≡ Ordering.eq
cmp_pair_self (a, b) = rw (cmp_text_self a) (cmp_text_self b)

pub cmp_pair-gt_of_lt :
    (p q : Text × Text) → cmp_pair p q ≡ Ordering.lt → cmp_pair q p ≡ Ordering.gt
cmp_pair-gt_of_lt (a, b) (c, d) h =
    ground
      (arith, cmp_text-eq_of a c, cmp_text_self a, cmp_text-gt_of_lt a c, cmp_text-gt_of_lt b d)

pub cmp_pair-lt_of_gt :
    (p q : Text × Text) → cmp_pair p q ≡ Ordering.gt → cmp_pair q p ≡ Ordering.lt
cmp_pair-lt_of_gt (a, b) (c, d) h =
    ground
      (arith, cmp_text-eq_of a c, cmp_text_self a, cmp_text-lt_of_gt a c, cmp_text-lt_of_gt b d)

pub cmp_pair-lt_trans :
    (p q r : Text × Text)
    → cmp_pair p q ≡ Ordering.lt
    → cmp_pair q r ≡ Ordering.lt
    → cmp_pair p r ≡ Ordering.lt
cmp_pair-lt_trans (a, b) (c, d) (e, f) h k = ground (
  arith,
  cmp_text-eq_of a c,
  cmp_text-eq_of c e,
  cmp_text_self a,
  cmp_text-lt_trans a c e,
  cmp_text-lt_trans b d f,
)

instance abbrev pub pair_ord : Ord (Text × Text)
pair_ord = record {
  cmp = cmp_pair;
  eq_of = cmp_pair-eq_of;
  cmp_self = cmp_pair_self;
  gt_of_lt = cmp_pair-gt_of_lt;
  lt_of_gt = cmp_pair-lt_of_gt;
  lt_trans = cmp_pair-lt_trans;
}

-- `a == b` and `a < b`
abbrev pub is_eq : Ordering → Bool
is_eq Ordering.eq = true
is_eq _ = false

abbrev pub is_lt : Ordering → Bool
is_lt Ordering.lt = true
is_lt _ = false

pub is_eq→eq : (o : Ordering) → is_eq o ≡ true → o ≡ Ordering.eq
is_eq→eq Ordering.eq h = refl
is_eq→eq Ordering.lt h = cc
is_eq→eq Ordering.gt h = cc

infix 50 ◌==◌ ◌<?◌
abbrev pub ◌==◌ {ℓ} : {A : Type ℓ} ⦃o : Ord A⦄ → A → A → Bool
◌==◌ ⦃o⦄ a b = is_eq (o.cmp a b)

abbrev pub ◌<?◌ {ℓ} : {A : Type ℓ} ⦃o : Ord A⦄ → A → A → Bool
◌<?◌ ⦃o⦄ a b = is_lt (o.cmp a b)

pub ==_iff {ℓ} : {A : Type ℓ} ⦃o : Ord A⦄ (a b : A) → ((a == b) ≡ true) ↔ (a ≡ b)
==_iff ⦃o⦄ a b = (λ h. o.eq_of a b (is_eq→eq _ h), λ e. rw (← e) (rw (o.cmp_self a)))
