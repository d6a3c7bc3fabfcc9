-- ===== src/Authn/Provision/Groups.antt =====
-- crates/lakefs-authn/src/provision.rs: the groups that a new user joins.
use lakefs_auth.Common.{
  ◌≡◌, refl, ◌∙◌, true, inl, inr, Option, none, some, List, [], ◌∷◌, All, arith, Bool-cases,
  Option-cases,
}
use lakefs_auth.Std.Order.{Text, text_ord, ◌==◌, ==_iff}
use lakefs_auth.Std.BTreeMap.{get}
use lakefs_auth.Std.Sort.{
  has, sort, dedup, All-sort, All-dedup, has-sort, has-dedup, IsIncreasing, dedup-sort,
}
use lakefs_auth.Authn.Claims.{Claims, GroupsClaim, values}
use lakefs_auth.Authn.Provision.{
  ProvisionSettings, map_groups, resolve_groups, parsed_groups, or_initial, groups_from,
}

All-weaken {ℓ κ} :
    {P : Text → Type ℓ} {Q : Text → Type κ} (xs : List Text)
    → ((x : Text) → P x → Q x)
    → All P xs
    → All Q xs
All-weaken [] f h = tt
All-weaken (x ∷ xs) f (hx, h) = (f x hx, All-weaken xs f h)

has_self : (xs : List Text) → All (λ x. has xs x ≡ true) xs
has_self [] = tt
has_self (x ∷ xs) =
    let first : (x == x) ≡ true = (==_iff x x).1 refl in
    (rw first refl, All-weaken xs (λ y h. ground (arith, h)) (has_self xs))

-- Where the map sends a group, the user joins it.
abbrev pub IsJoined : List Text → Option Text → Type 0
IsJoined groups none = Unit
IsJoined groups (some group) = has groups group ≡ true

IsJoined-of :
    (groups : List Text) (target : Option Text)
    → ((group : Text) → target ≡ some group → has groups group ≡ true)
    → IsJoined groups target
IsJoined-of groups none f = tt
IsJoined-of groups (some group) f = f group refl

module _ (settings : ProvisionSettings) where
  -- The map sends a group of the claim to this one.
  abbrev pub IsMapped : List Text → Text → Type 0
  IsMapped names group =
      (name : Text) × (has names name ≡ true) × (get name settings.group_map ≡ some group)

  map_groups-IsMapped :
      (names suffix : List Text)
      → settings.group_map_strict ≡ true
      → All (λ x. has names x ≡ true) suffix
      → All (IsMapped names) (map_groups settings suffix)
  unfolding map_groups
  map_groups-IsMapped names [] strict h = tt
  map_groups-IsMapped names (x ∷ suffix) strict (hx, h) =
      let rest = map_groups-IsMapped names suffix strict h in
      elim (Option-cases (get x settings.group_map)) [
        | inl e ↦ rw (e, strict) rest
        | inr (group, e) ↦ rw e ((x, hx, e), rest)
      ]

  has-mapped :
      (x group : Text) (names : List Text)
      → has (map_groups settings names) group ≡ true
      → has (map_groups settings (x ∷ names)) group ≡ true
  unfolding map_groups
  has-mapped x group names h = elim (Option-cases (get x settings.group_map)) [
    | inl e ↦ elim (Bool-cases settings.group_map_strict) [
      | inl strict ↦ rw (e, strict) h
      | inr lenient ↦ ground (arith, e, lenient, h)
    ]
    | inr (other, e) ↦ ground (arith, e, h)
  ]

  has-map_groups :
      (names : List Text)
      → All
          (λ x.
            (group : Text)
            → get x settings.group_map ≡ some group
            → has (map_groups settings names) group ≡ true)
          names
  unfolding map_groups
  has-map_groups [] = tt
  has-map_groups (x ∷ names) = (
    λ group e.
        rw e (let same : (group == group) ≡ true = (==_iff group group).1 refl in rw same refl),
    All-weaken names (λ y f group e. has-mapped x group names (f group e)) (has-map_groups names),
  )

  or_initial-strict :
      (groups : List Text) → settings.group_map_strict ≡ true → or_initial settings groups ≡ groups
  or_initial-strict [] strict = rw strict refl
  or_initial-strict (group ∷ groups) strict = refl

  groups_from-strict :
      (parsed : GroupsClaim) (found : Option GroupsClaim)
      → found ≡ some parsed
      → settings.group_map_strict ≡ true
      → groups_from settings found ≡ dedup (sort (map_groups settings (values parsed)))
  groups_from-strict parsed found readable strict =
      rw readable (or_initial-strict (dedup (sort (map_groups settings (values parsed)))) strict)

  strict_groups :
      (claims : Claims) (name : Text) (parsed : GroupsClaim)
      → settings.groups_claim ≡ some name
      → parsed_groups (get name claims) ≡ some parsed
      → settings.group_map_strict ≡ true
      → resolve_groups settings claims ≡ dedup (sort (map_groups settings (values parsed)))
  unfolding resolve_groups
  strict_groups claims name parsed named readable strict =
      rw named (groups_from-strict parsed (parsed_groups (get name claims)) readable strict)

  -- With a strict group map and a groups claim that can be read, a new user joins exactly the groups
  -- to which the map sends those of the claim, in order and each once.
  pub resolve_groups-IsMapped :
      (claims : Claims) (name : Text) (parsed : GroupsClaim)
      → settings.groups_claim ≡ some name
      → parsed_groups (get name claims) ≡ some parsed
      → settings.group_map_strict ≡ true
      → All (IsMapped (values parsed)) (resolve_groups settings claims)
        × All
            (λ x. IsJoined (resolve_groups settings claims) (get x settings.group_map))
            (values parsed)
        × IsIncreasing (resolve_groups settings claims)
  resolve_groups-IsMapped claims name parsed named readable strict =
      let names = values parsed in
      let groups = map_groups settings names in
      rw (strict_groups claims name parsed named readable strict) (
        All-dedup (IsMapped names) (sort groups) (
            All-sort (IsMapped names) groups
              (map_groups-IsMapped names names strict (has_self names))),
        All-weaken names
            (λ x f.
              IsJoined-of (dedup (sort groups)) (get x settings.group_map)
                (λ group e. has-dedup (sort groups) group ∙ has-sort groups group ∙ f group e))
            (has-map_groups names),
        dedup-sort groups,
      )
