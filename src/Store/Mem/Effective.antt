-- ===== src/Store/Mem/Effective.antt =====
-- `list_effective_user_policies` of store/mem.rs: the names that it collects.
use lakefs_auth.Common.{
  ◌≡◌, refl, ap, ◌∙◌, Bool, ◌&&◌, ◌||◌, List, [], ◌∷◌, map, filter, any, arith,
}
use lakefs_auth.Std.Order.{Text, text_ord, pair_ord, Ord, ◌==◌}
use lakefs_auth.Std.BTreeMap.{BTreeSet, get, contains_key, insert, keys, extend}
use lakefs_auth.Std.BTreeMap.Laws.{get-insert}
use lakefs_auth.Store.Mem.Inner.{Inner}
use lakefs_auth.Store.Mem.Policies.{names_of, groups_of, effective_names}

module _ {ℓ} {K : Type ℓ} ⦃o : Ord K⦄ where
  contains_key-extend :
      (k : K) (s : BTreeSet K) (ks : List K)
      → contains_key k (extend s ks) ≡ (contains_key k s || any (λ j. j == k) ks)
  unfolding extend
  contains_key-extend k s [] = ground arith
  contains_key-extend k s (j ∷ ks) =
      ground (arith, contains_key-extend k (insert j tt s) ks, get-insert k j tt s)

any-cong : {A : Type 0} (p q : A → Bool) (xs : List A) → ((x : A) → p x ≡ q x) → any p xs ≡ any q xs
any-cong p q [] h = refl
any-cong p q (x ∷ xs) h = ground (arith, h x, any-cong p q xs h)

-- The names that stand beside `key` in a set of pairs, and those that `key` stands beside.
any-names_of :
    (key name : Text) (set : BTreeSet (Text × Text))
    → any (λ j. j == name) (names_of (λ k. k == key) set) ≡ contains_key (key, name) set
unfolding get
any-names_of key name [] = refl
any-names_of key name (((a, b), u) ∷ set) = ground (arith, any-names_of key name set)

any-groups :
    (group username : Text) (set : BTreeSet (Text × Text))
    → any (λ j. j == group) (map (λ k. k.0) (filter (λ k. k.1 == username) (keys set)))
      ≡ contains_key (group, username) set
unfolding get
any-groups group username [] = refl
any-groups group username (((a, b), u) ∷ set) = ground (arith, any-groups group username set)

any-names :
    (p : Text → Bool) (name : Text) (set : BTreeSet (Text × Text))
    → any (λ j. j == name) (names_of p set) ≡ any (λ k. p k.0 && (k.1 == name)) (keys set)
any-names p name [] = refl
any-names p name (((a, b), u) ∷ set) = ground (arith, any-names p name set)

module _ {T : Type 0} where
  contains_key-groups_of :
      (group username : Text) (s : Inner T)
      → contains_key group (groups_of username s) ≡ contains_key (group, username) s.group_members
  unfolding groups_of
  contains_key-groups_of group username s =
      contains_key-extend group []
        (map (λ k. k.0) (filter (λ k. k.1 == username) (keys s.group_members)))
      ∙ (unfold get in any-groups group username s.group_members)

  -- A policy holds for a user exactly when it is attached to the user, or to a group of which the
  -- user is a member.
  pub contains_key-effective_names :
      (name username : Text) (s : Inner T)
      → contains_key name (effective_names username s) ≡ (
          contains_key (username, name) s.user_policies
          || any
              (λ k. contains_key (k.0, username) s.group_members && (k.1 == name))
              (keys s.group_policies))
  unfolding effective_names
  contains_key-effective_names name username s =
      let direct = names_of (λ user. user == username) s.user_policies in
      let by_group =
        names_of (λ group. contains_key group (groups_of username s)) s.group_policies in
      let own : contains_key name (extend [] direct) ≡ any (λ j. j == name) direct =
        contains_key-extend name [] direct ∙ unfold get in refl in
      ground (
        arith,
        contains_key-extend name (extend [] direct) by_group,
        own,
        any-names_of username name s.user_policies,
        any-names (λ group. contains_key group (groups_of username s)) name s.group_policies,
        any-cong (λ k. contains_key k.0 (groups_of username s) && (k.1 == name))
            (λ k. contains_key (k.0, username) s.group_members && (k.1 == name))
            (keys s.group_policies)
            (λ k. ap (λ t. t && (k.1 == name)) (contains_key-groups_of k.0 username s)),
      )
