-- ===== src/Store/Mem/Invariant/Deletes.antt =====
-- The deletes and their cascades keep the order of the tables, and leave no reference to a row
-- that is gone.
use lakefs_auth.Common.{not, arith}
use lakefs_auth.Std.Order.{Text, text_ord, pair_ord, ◌==◌}
use lakefs_auth.Std.BTreeMap.Laws.{get-remove, get-retain, remove-IsSorted, retain-IsSorted}
use lakefs_auth.Store.Mem.Inner.{Inner}
use lakefs_auth.Store.Mem.Users.{delete_user}
use lakefs_auth.Store.Mem.Groups.{delete_group}
use lakefs_auth.Store.Mem.Policies.{delete_policy}
use lakefs_auth.Store.Mem.Invariant.{IsOrdered, IsKeyed, IsReferenced}

module _ {T : Type 0} (username : Text) (s : Inner T) (o : IsOrdered s) where
  pub delete_user-IsOrdered : IsOrdered (delete_user username s).1
  unfolding delete_user
  delete_user-IsOrdered = ground (
    arith,
    remove-IsSorted username s.users,
    retain-IsSorted (λ k _. not (k.1 == username)) s.group_members,
    retain-IsSorted (λ k _. not (k.0 == username)) s.user_policies,
    retain-IsSorted (λ _ c. not (c.username == username)) s.credentials,
    retain-IsSorted (λ _ p. not (p.username == username)) s.external_principals,
  )

  pub delete_user-IsKeyed : IsKeyed s → IsKeyed (delete_user username s).1
  unfolding delete_user
  delete_user-IsKeyed r = record {
    users = λ k u h. ground (arith, r.users k u, get-remove k username s.users o.users);
    groups = λ k g h. ground (arith, r.groups k g);
    policies = λ k p h. ground (arith, r.policies k p);
    credentials = λ k c h. ground (
      arith,
      r.credentials k c,
      get-retain (λ _ c. not (c.username == username)) k s.credentials o.credentials,
    );
    external_principals = λ k p h. ground (
      arith,
      r.external_principals k p,
      get-retain (λ _ p. not (p.username == username)) k s.external_principals
          o.external_principals,
    );
  }

  pub delete_user-IsReferenced : IsReferenced s → IsReferenced (delete_user username s).1
  unfolding delete_user
  delete_user-IsReferenced r = record {
    group_members = λ g u h. ground (
      arith,
      r.group_members g u,
      get-remove u username s.users o.users,
      get-retain (λ k _. not (k.1 == username)) (g, u) s.group_members o.group_members,
      text_ord.eq_of username u,
      text_ord.cmp_self username,
    );
    user_policies = λ u p h. ground (
      arith,
      r.user_policies u p,
      get-remove u username s.users o.users,
      get-retain (λ k _. not (k.0 == username)) (u, p) s.user_policies o.user_policies,
      text_ord.eq_of username u,
      text_ord.cmp_self username,
    );
    group_policies = λ g p h. ground (arith, r.group_policies g p);
    credentials = λ k c h. ground (
      arith,
      r.credentials k c,
      get-remove c.username username s.users o.users,
      get-retain (λ _ c. not (c.username == username)) k s.credentials o.credentials,
      text_ord.eq_of username c.username,
      text_ord.cmp_self username,
    );
    external_principals = λ k p h. ground (
      arith,
      r.external_principals k p,
      get-remove p.username username s.users o.users,
      get-retain (λ _ p. not (p.username == username)) k s.external_principals
          o.external_principals,
      text_ord.eq_of username p.username,
      text_ord.cmp_self username,
    );
  }

module _ {T : Type 0} (group_id : Text) (s : Inner T) (o : IsOrdered s) where
  pub delete_group-IsOrdered : IsOrdered (delete_group group_id s).1
  unfolding delete_group
  delete_group-IsOrdered = ground (
    arith,
    remove-IsSorted group_id s.groups,
    retain-IsSorted (λ k _. not (k.0 == group_id)) s.group_members,
    retain-IsSorted (λ k _. not (k.0 == group_id)) s.group_policies,
  )

  pub delete_group-IsKeyed : IsKeyed s → IsKeyed (delete_group group_id s).1
  unfolding delete_group
  delete_group-IsKeyed r = record {
    users = λ k u h. ground (arith, r.users k u);
    groups = λ k g h. ground (arith, r.groups k g, get-remove k group_id s.groups o.groups);
    policies = λ k p h. ground (arith, r.policies k p);
    credentials = λ k c h. ground (arith, r.credentials k c);
    external_principals = λ k p h. ground (arith, r.external_principals k p);
  }

  pub delete_group-IsReferenced : IsReferenced s → IsReferenced (delete_group group_id s).1
  unfolding delete_group
  delete_group-IsReferenced r = record {
    group_members = λ g u h. ground (
      arith,
      r.group_members g u,
      get-remove g group_id s.groups o.groups,
      get-retain (λ k _. not (k.0 == group_id)) (g, u) s.group_members o.group_members,
      text_ord.eq_of group_id g,
      text_ord.cmp_self group_id,
    );
    user_policies = λ u p h. ground (arith, r.user_policies u p);
    group_policies = λ g p h. ground (
      arith,
      r.group_policies g p,
      get-remove g group_id s.groups o.groups,
      get-retain (λ k _. not (k.0 == group_id)) (g, p) s.group_policies o.group_policies,
      text_ord.eq_of group_id g,
      text_ord.cmp_self group_id,
    );
    credentials = λ k c h. ground (arith, r.credentials k c);
    external_principals = λ k p h. ground (arith, r.external_principals k p);
  }

module _ {T : Type 0} (name : Text) (s : Inner T) (o : IsOrdered s) where
  pub delete_policy-IsOrdered : IsOrdered (delete_policy name s).1
  unfolding delete_policy
  delete_policy-IsOrdered = ground (
    arith,
    remove-IsSorted name s.policies,
    retain-IsSorted (λ k _. not (k.1 == name)) s.user_policies,
    retain-IsSorted (λ k _. not (k.1 == name)) s.group_policies,
  )

  pub delete_policy-IsKeyed : IsKeyed s → IsKeyed (delete_policy name s).1
  unfolding delete_policy
  delete_policy-IsKeyed r = record {
    users = λ k u h. ground (arith, r.users k u);
    groups = λ k g h. ground (arith, r.groups k g);
    policies = λ k p h. ground (arith, r.policies k p, get-remove k name s.policies o.policies);
    credentials = λ k c h. ground (arith, r.credentials k c);
    external_principals = λ k p h. ground (arith, r.external_principals k p);
  }

  pub delete_policy-IsReferenced : IsReferenced s → IsReferenced (delete_policy name s).1
  unfolding delete_policy
  delete_policy-IsReferenced r = record {
    group_members = λ g u h. ground (arith, r.group_members g u);
    user_policies = λ u p h. ground (
      arith,
      r.user_policies u p,
      get-remove p name s.policies o.policies,
      get-retain (λ k _. not (k.1 == name)) (u, p) s.user_policies o.user_policies,
      text_ord.eq_of name p,
      text_ord.cmp_self name,
    );
    group_policies = λ g p h. ground (
      arith,
      r.group_policies g p,
      get-remove p name s.policies o.policies,
      get-retain (λ k _. not (k.1 == name)) (g, p) s.group_policies o.group_policies,
      text_ord.eq_of name p,
      text_ord.cmp_self name,
    );
    credentials = λ k c h. ground (arith, r.credentials k c);
    external_principals = λ k p h. ground (arith, r.external_principals k p);
  }
