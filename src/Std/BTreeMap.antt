-- ===== src/Std/BTreeMap.antt =====
-- `BTreeMap<K, V>`: the entries in the order of their keys, and `BTreeSet<K>`, which is the map
-- with no values.
pub mod Laws
use lakefs_auth.Common.{
  Ordering, Bool, true, false, Option, none, some, List, [], ◌∷◌, is_some, if◌then◌else◌, ◌≡◌,
}
use lakefs_auth.Std.Order.{Ord, ◌==◌}

abbrev pub BTreeMap {ℓ κ} : Type ℓ → Type κ → Type (ℓ ⊔ κ)
BTreeMap K V = List (K × V)

module _ {ℓ κ} {K : Type ℓ} {V : Type κ} where
  -- `values()`
  abbrev pub values : BTreeMap K V → List V
  values [] = []
  values ((k, v) ∷ m) = v ∷ values m

  abbrev pub keys : BTreeMap K V → List K
  keys [] = []
  keys ((k, v) ∷ m) = k ∷ keys m

  unfoldable pub retain : (K → V → Bool) → BTreeMap K V → BTreeMap K V
  retain p [] = []
  retain p ((k, v) ∷ m) = if p k v then (k, v) ∷ retain p m else retain p m

module _ {ℓ κ} {K : Type ℓ} {V : Type κ} ⦃o : Ord K⦄ where
  unfoldable pub get : K → BTreeMap K V → Option V
  get k [] = none
  get k ((j, v) ∷ m) = if j == k then some v else get k m

  abbrev pub contains_key : K → BTreeMap K V → Bool
  contains_key k m = is_some (get k m)

  insert_at : Ordering → K → V → K → V → BTreeMap K V → BTreeMap K V → BTreeMap K V
  insert_at Ordering.lt k v j w m rest = (k, v) ∷ (j, w) ∷ m
  insert_at Ordering.eq k v j w m rest = (j, v) ∷ m
  insert_at Ordering.gt k v j w m rest = (j, w) ∷ rest

  unfoldable pub insert : K → V → BTreeMap K V → BTreeMap K V
  unfolding insert_at
  insert k v [] = (k, v) ∷ []
  insert k v ((j, w) ∷ m) = insert_at (o.cmp k j) k v j w m (insert k v m)

  unfoldable pub remove : K → BTreeMap K V → BTreeMap K V
  remove k [] = []
  remove k ((j, v) ∷ m) = if j == k then m else (j, v) ∷ remove k m

  -- Each key is below `j`'s, and the entries are in order with no key twice.
  abbrev pub Above : K → BTreeMap K V → Type ℓ
  Above k [] = Unit
  Above k ((j, v) ∷ m) = (o.cmp k j ≡ Ordering.lt) × Above k m

  abbrev pub IsSorted : BTreeMap K V → Type ℓ
  IsSorted [] = Unit
  IsSorted ((k, v) ∷ m) = Above k m × IsSorted m

abbrev pub BTreeSet {ℓ} : Type ℓ → Type ℓ
BTreeSet K = BTreeMap K (Unit {0})

module _ {ℓ} {K : Type ℓ} ⦃o : Ord K⦄ where
  -- `set.extend(keys)`, and from the empty set `collect()`
  unfoldable pub extend : BTreeSet K → List K → BTreeSet K
  extend s [] = s
  extend s (k ∷ ks) = extend (insert k tt s) ks
