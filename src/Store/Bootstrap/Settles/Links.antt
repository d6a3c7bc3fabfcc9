-- ===== src/Store/Bootstrap/Settles/Links.antt =====
-- crates/lakefs-authz/src/store/mem.rs: the links of a plan that are in place.
use lakefs_auth.Common.{◌≡◌, Bool, false, some, arith, inl, inr}
use lakefs_auth.Std.Order.{Text, text_ord, pair_ord}
use lakefs_auth.Std.BTreeMap.{BTreeSet, get, insert}
use lakefs_auth.Std.BTreeMap.Laws.{insert_present}
use lakefs_auth.Std.Result.{ok, Result-cases, ◌>>◌}
use lakefs_auth.Store.Mem.Inner.{Inner, require_user, require_group, require_policy, require}
use lakefs_auth.Store.Mem.Invariant.{IsValid}
use lakefs_auth.Store.Bootstrap.Inner.{
  insert_membership_if_missing, insert_user_policy_if_missing, insert_group_policy_if_missing,
}
use lakefs_auth.Store.Bootstrap.Grows.{
  Grows, Grows-group_members, Grows-user_policies, Grows-group_policies, IsWithin-add,
  get-insert_self,
}
use lakefs_auth.Store.Bootstrap.Settles.{Settles}

module _ {T : Type 0} where
  abbrev pub HasPair : (Inner T → BTreeSet (Text × Text)) → Text × Text → Inner T → Type 0
  HasPair table a s = get (a.0, a.1) (table s) ≡ some tt

  first_membership :
      (a : Text × Text) (s t : Inner T) (b : Bool)
      → insert_membership_if_missing a.0 a.1 s ≡ (ok b, t)
      → Grows s t × HasPair (λ s. s.group_members) a t
  unfolding insert_membership_if_missing
  first_membership a s t b h = elim (Result-cases (require_group s a.0 >> require_user s a.1)) [
    | inr (e, missing) ↦ absurd (ground (arith, missing, h))
    | inl (u, found) ↦
        (let e : record s { group_members = insert (a.0, a.1) tt s.group_members } ≡ t =
            ground (arith, found, h) in
          (
            rw (← e) (
                Grows-group_members s (insert (a.0, a.1) tt s.group_members)
                  (IsWithin-add (a.0, a.1) s.group_members)),
            rw (← e) (get-insert_self (a.0, a.1) tt s.group_members),
          ))
  ]

  again_membership :
      (a : Text × Text) (s : Inner T)
      → IsValid s
      → HasPair (λ s. s.group_members) a s
      → insert_membership_if_missing a.0 a.1 s ≡ (ok false, s)
  unfolding insert_membership_if_missing require_group require_user require
  again_membership a s valid h =
      let (there, here) = valid.referenced.group_members a.0 a.1 (ground (arith, h)) in
      let same = insert_present (a.0, a.1) tt s.group_members valid.ordered.group_members h in
      ground (arith, there, here, same, h)

  pub membership-Settles :
      Settles (HasPair (λ s. s.group_members)) (λ a. insert_membership_if_missing a.0 a.1)
  membership-Settles = record {
    first = first_membership;
    stays = λ a s t g h. g.group_members (a.0, a.1) tt h;
    again = again_membership;
  }

  first_user_policy :
      (a : Text × Text) (s t : Inner T) (b : Bool)
      → insert_user_policy_if_missing a.0 a.1 s ≡ (ok b, t)
      → Grows s t × HasPair (λ s. s.user_policies) a t
  unfolding insert_user_policy_if_missing
  first_user_policy a s t b h = elim (Result-cases (require_user s a.0 >> require_policy s a.1)) [
    | inr (e, missing) ↦ absurd (ground (arith, missing, h))
    | inl (u, found) ↦
        (let e : record s { user_policies = insert (a.0, a.1) tt s.user_policies } ≡ t =
            ground (arith, found, h) in
          (
            rw (← e) (
                Grows-user_policies s (insert (a.0, a.1) tt s.user_policies)
                  (IsWithin-add (a.0, a.1) s.user_policies)),
            rw (← e) (get-insert_self (a.0, a.1) tt s.user_policies),
          ))
  ]

  again_user_policy :
      (a : Text × Text) (s : Inner T)
      → IsValid s
      → HasPair (λ s. s.user_policies) a s
      → insert_user_policy_if_missing a.0 a.1 s ≡ (ok false, s)
  unfolding insert_user_policy_if_missing require_user require_policy require
  again_user_policy a s valid h =
      let (there, here) = valid.referenced.user_policies a.0 a.1 (ground (arith, h)) in
      let same = insert_present (a.0, a.1) tt s.user_policies valid.ordered.user_policies h in
      ground (arith, there, here, same, h)

  pub user_policy-Settles :
      Settles (HasPair (λ s. s.user_policies)) (λ a. insert_user_policy_if_missing a.0 a.1)
  user_policy-Settles = record {
    first = first_user_policy;
    stays = λ a s t g h. g.user_policies (a.0, a.1) tt h;
    again = again_user_policy;
  }

  first_group_policy :
      (a : Text × Text) (s t : Inner T) (b : Bool)
      → insert_group_policy_if_missing a.0 a.1 s ≡ (ok b, t)
      → Grows s t × HasPair (λ s. s.group_policies) a t
  unfolding insert_group_policy_if_missing
  first_group_policy a s t b h = elim (Result-cases (require_group s a.0 >> require_policy s a.1)) [
    | inr (e, missing) ↦ absurd (ground (arith, missing, h))
    | inl (u, found) ↦
        (let e : record s { group_policies = insert (a.0, a.1) tt s.group_policies } ≡ t =
            ground (arith, found, h) in
          (
            rw (← e) (
                Grows-group_policies s (insert (a.0, a.1) tt s.group_policies)
                  (IsWithin-add (a.0, a.1) s.group_policies)),
            rw (← e) (get-insert_self (a.0, a.1) tt s.group_policies),
          ))
  ]

  again_group_policy :
      (a : Text × Text) (s : Inner T)
      → IsValid s
      → HasPair (λ s. s.group_policies) a s
      → insert_group_policy_if_missing a.0 a.1 s ≡ (ok false, s)
  unfolding insert_group_policy_if_missing require_group require_policy require
  again_group_policy a s valid h =
      let (there, here) = valid.referenced.group_policies a.0 a.1 (ground (arith, h)) in
      let same = insert_present (a.0, a.1) tt s.group_policies valid.ordered.group_policies h in
      ground (arith, there, here, same, h)

  pub group_policy-Settles :
      Settles (HasPair (λ s. s.group_policies)) (λ a. insert_group_policy_if_missing a.0 a.1)
  group_policy-Settles = record {
    first = first_group_policy;
    stays = λ a s t g h. g.group_policies (a.0, a.1) tt h;
    again = again_group_policy;
  }
