-- ===== src/Store/Bootstrap/Grows.antt =====
-- crates/lakefs-authz/src/store/mem.rs: stores that hold all that another store holds.
use lakefs_auth.Common.{ℕ, ◌≡◌, ◌∙◌, none, some, inl, inr, arith, Bool-cases}
use lakefs_auth.Std.Order.{Ord, Text, text_ord, pair_ord, ◌==◌, ==_iff}
use lakefs_auth.Std.BTreeMap.{BTreeMap, BTreeSet, get, insert}
use lakefs_auth.Std.BTreeMap.Laws.{get-insert}
use lakefs_auth.Store.Types.{UserRecord, GroupRecord, PolicyRecord, CredentialRecord}
use lakefs_auth.Store.Mem.Inner.{Inner}

module _ {K V : Type 0} ⦃o : Ord K⦄ where
  -- What the first map holds, the second holds.
  abbrev pub IsWithin : BTreeMap K V → BTreeMap K V → Type 0
  IsWithin m n = (k : K) (v : V) → get k m ≡ some v → get k n ≡ some v

  pub IsWithin-insert :
      (k : K) (v : V) (m : BTreeMap K V) → get k m ≡ none → IsWithin m (insert k v m)
  IsWithin-insert k v m absent j w h = elim (Bool-cases (k == j)) [
    | inl same ↦ (let e : k ≡ j = (==_iff k j).0 same in absurd (ground (arith, absent, h, e)))
    | inr other ↦ get-insert j k v m ∙ ground (arith, other, h)
  ]

  pub get-insert_self : (k : K) (v : V) (m : BTreeMap K V) → get k (insert k v m) ≡ some v
  get-insert_self k v m = get-insert k k v m ∙ ground (arith, o.cmp_self k)

module _ {K : Type 0} ⦃o : Ord K⦄ where
  pub IsWithin-add : (k : K) (m : BTreeSet K) → IsWithin m (insert k tt m)
  IsWithin-add k m j w h = elim (Bool-cases (k == j)) [
    | inl same ↦ get-insert j k tt m ∙ ground (arith, same)
    | inr other ↦ get-insert j k tt m ∙ ground (arith, other, h)
  ]

pub record Grows {T : Type 0} (s t : Inner T) : Type 0 where
  pub users : IsWithin s.users t.users
  pub groups : IsWithin s.groups t.groups
  pub policies : IsWithin s.policies t.policies
  pub group_members : IsWithin s.group_members t.group_members
  pub user_policies : IsWithin s.user_policies t.user_policies
  pub group_policies : IsWithin s.group_policies t.group_policies
  pub credentials : IsWithin s.credentials t.credentials

module _ {T : Type 0} where
  pub Grows-self : (s : Inner T) → Grows s s
  Grows-self s = record {
    users = λ k v h. h;
    groups = λ k v h. h;
    policies = λ k v h. h;
    group_members = λ k v h. h;
    user_policies = λ k v h. h;
    group_policies = λ k v h. h;
    credentials = λ k v h. h;
  }

  pub Grows-trans : (s t u : Inner T) → Grows s t → Grows t u → Grows s u
  Grows-trans s t u g h = record {
    users = λ k v e. h.users k v (g.users k v e);
    groups = λ k v e. h.groups k v (g.groups k v e);
    policies = λ k v e. h.policies k v (g.policies k v e);
    group_members = λ k v e. h.group_members k v (g.group_members k v e);
    user_policies = λ k v e. h.user_policies k v (g.user_policies k v e);
    group_policies = λ k v e. h.group_policies k v (g.group_policies k v e);
    credentials = λ k v e. h.credentials k v (g.credentials k v e);
  }

  -- One table that grew, and the others as they were.
  pub Grows-users :
      (s : Inner T) (n : ℕ) (m : BTreeMap Text (UserRecord T))
      → IsWithin s.users m
      → Grows s (record s { next_user_id = n; users = m })
  Grows-users s n m g = record {
    users = g;
    groups = λ k v h. h;
    policies = λ k v h. h;
    group_members = λ k v h. h;
    user_policies = λ k v h. h;
    group_policies = λ k v h. h;
    credentials = λ k v h. h;
  }

  pub Grows-groups :
      (s : Inner T) (m : BTreeMap Text (GroupRecord T))
      → IsWithin s.groups m
      → Grows s (record s { groups = m })
  Grows-groups s m g = record {
    users = λ k v h. h;
    groups = g;
    policies = λ k v h. h;
    group_members = λ k v h. h;
    user_policies = λ k v h. h;
    group_policies = λ k v h. h;
    credentials = λ k v h. h;
  }

  pub Grows-policies :
      (s : Inner T) (m : BTreeMap Text (PolicyRecord T))
      → IsWithin s.policies m
      → Grows s (record s { policies = m })
  Grows-policies s m g = record {
    users = λ k v h. h;
    groups = λ k v h. h;
    policies = g;
    group_members = λ k v h. h;
    user_policies = λ k v h. h;
    group_policies = λ k v h. h;
    credentials = λ k v h. h;
  }

  pub Grows-group_members :
      (s : Inner T) (m : BTreeSet (Text × Text))
      → IsWithin s.group_members m
      → Grows s (record s { group_members = m })
  Grows-group_members s m g = record {
    users = λ k v h. h;
    groups = λ k v h. h;
    policies = λ k v h. h;
    group_members = g;
    user_policies = λ k v h. h;
    group_policies = λ k v h. h;
    credentials = λ k v h. h;
  }

  pub Grows-user_policies :
      (s : Inner T) (m : BTreeSet (Text × Text))
      → IsWithin s.user_policies m
      → Grows s (record s { user_policies = m })
  Grows-user_policies s m g = record {
    users = λ k v h. h;
    groups = λ k v h. h;
    policies = λ k v h. h;
    group_members = λ k v h. h;
    user_policies = g;
    group_policies = λ k v h. h;
    credentials = λ k v h. h;
  }

  pub Grows-group_policies :
      (s : Inner T) (m : BTreeSet (Text × Text))
      → IsWithin s.group_policies m
      → Grows s (record s { group_policies = m })
  Grows-group_policies s m g = record {
    users = λ k v h. h;
    groups = λ k v h. h;
    policies = λ k v h. h;
    group_members = λ k v h. h;
    user_policies = λ k v h. h;
    group_policies = g;
    credentials = λ k v h. h;
  }

  pub Grows-credentials :
      (s : Inner T) (m : BTreeMap Text (CredentialRecord T))
      → IsWithin s.credentials m
      → Grows s (record s { credentials = m })
  Grows-credentials s m g = record {
    users = λ k v h. h;
    groups = λ k v h. h;
    policies = λ k v h. h;
    group_members = λ k v h. h;
    user_policies = λ k v h. h;
    group_policies = λ k v h. h;
    credentials = g;
  }
