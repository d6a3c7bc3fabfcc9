-- ===== src/Store/Mem/Invariant/Inserts.antt =====
-- The creates and updates of users and groups keep the
-- order of the tables and the references.
use lakefs_auth.Common.{◌+◌, some, arith}
use lakefs_auth.Std.Order.{Text, text_ord, pair_ord}
use lakefs_auth.Std.BTreeMap.Laws.{get-insert, insert-IsSorted}
use lakefs_auth.Store.Types.{UserRecord, NewUser, GroupRecord, NewGroup}
use lakefs_auth.Store.Mem.Inner.{Inner, user_record}
use lakefs_auth.Store.Mem.Users.{create_user, set_friendly_name}
use lakefs_auth.Store.Mem.Groups.{create_group}
use lakefs_auth.Store.Mem.Invariant.{IsOrdered, IsKeyed, IsReferenced}

-- A table of users that has a new row, or the same row with another friendly name, keeps what the
-- other tables refer to.
module _ {T : Type 0} (user : NewUser T) (s : Inner T) where
  abbrev row : UserRecord T
  row = user_record user (s.next_user_id + 1)

  pub create_user-IsOrdered : IsOrdered s → IsOrdered (create_user user s).1
  unfolding create_user
  create_user-IsOrdered o = ground (arith, insert-IsSorted user.username row s.users)

  pub create_user-IsKeyed : IsKeyed s → IsKeyed (create_user user s).1
  unfolding create_user
  create_user-IsKeyed r = record {
    users = λ k u h. ground (
      arith,
      r.users k u,
      get-insert k user.username row s.users,
      text_ord.eq_of user.username k,
    );
    groups = λ k g h. ground (arith, r.groups k g);
    policies = λ k p h. ground (arith, r.policies k p);
    credentials = λ k c h. ground (arith, r.credentials k c);
    external_principals = λ k p h. ground (arith, r.external_principals k p);
  }

  pub create_user-IsReferenced : IsReferenced s → IsReferenced (create_user user s).1
  unfolding create_user
  create_user-IsReferenced r = record {
    group_members =
        λ g u h. ground (arith, r.group_members g u, get-insert u user.username row s.users);
    user_policies =
        λ u p h. ground (arith, r.user_policies u p, get-insert u user.username row s.users);
    group_policies = λ g p h. ground (arith, r.group_policies g p);
    credentials = λ k c h. ground (
      arith,
      r.credentials k c,
      get-insert c.username user.username row s.users,
      text_ord.eq_of user.username c.username,
    );
    external_principals = λ k p h.
        ground (arith, r.external_principals k p, get-insert p.username user.username row s.users);
  }

module _ {T : Type 0} (username friendly_name : Text) (s : Inner T) where
  abbrev renamed : UserRecord T → UserRecord T
  renamed u = record u { friendly_name = some friendly_name }

  pub set_friendly_name-IsOrdered :
      IsOrdered s → IsOrdered (set_friendly_name username friendly_name s).1
  unfolding set_friendly_name
  set_friendly_name-IsOrdered o =
      grind (arith, λ (u : UserRecord T). insert-IsSorted username (renamed u) s.users)

  pub set_friendly_name-IsKeyed : IsKeyed s → IsKeyed (set_friendly_name username friendly_name s).1
  unfolding set_friendly_name
  set_friendly_name-IsKeyed r = record {
    users = λ k u h. grind (
      arith,
      r.users k u,
      λ (v : UserRecord T). r.users username v,
      λ (v : UserRecord T). get-insert k username (renamed v) s.users,
      text_ord.eq_of username k,
    );
    groups = λ k g h. grind (arith, r.groups k g);
    policies = λ k p h. grind (arith, r.policies k p);
    credentials = λ k c h. grind (arith, r.credentials k c);
    external_principals = λ k p h. grind (arith, r.external_principals k p);
  }

  pub set_friendly_name-IsReferenced :
      IsReferenced s → IsReferenced (set_friendly_name username friendly_name s).1
  unfolding set_friendly_name
  set_friendly_name-IsReferenced r = record {
    group_members = λ g u h. grind (
      arith,
      r.group_members g u,
      λ (v : UserRecord T). get-insert u username (renamed v) s.users,
    );
    user_policies = λ u p h. grind (
      arith,
      r.user_policies u p,
      λ (v : UserRecord T). get-insert u username (renamed v) s.users,
    );
    group_policies = λ g p h. grind (arith, r.group_policies g p);
    credentials = λ k c h. grind (
      arith,
      r.credentials k c,
      λ (v : UserRecord T). get-insert c.username username (renamed v) s.users,
      text_ord.eq_of username c.username,
    );
    external_principals = λ k p h. grind (
      arith,
      r.external_principals k p,
      λ (v : UserRecord T). get-insert p.username username (renamed v) s.users,
    );
  }

module _ {T : Type 0} (group : NewGroup T) (s : Inner T) where
  abbrev group_row : GroupRecord T
  group_row = record {
    id = group.id;
    description = group.description;
    creation_date = group.creation_date;
  }

  pub create_group-IsOrdered : IsOrdered s → IsOrdered (create_group group s).1
  unfolding create_group
  create_group-IsOrdered o = ground (arith, insert-IsSorted group.id group_row s.groups)

  pub create_group-IsKeyed : IsKeyed s → IsKeyed (create_group group s).1
  unfolding create_group
  create_group-IsKeyed r = record {
    users = λ k u h. ground (arith, r.users k u);
    groups = λ k g h.
        ground (
          arith,
          r.groups k g,
          get-insert k group.id group_row s.groups,
          text_ord.eq_of group.id k,
        );
    policies = λ k p h. ground (arith, r.policies k p);
    credentials = λ k c h. ground (arith, r.credentials k c);
    external_principals = λ k p h. ground (arith, r.external_principals k p);
  }

  pub create_group-IsReferenced : IsReferenced s → IsReferenced (create_group group s).1
  unfolding create_group
  create_group-IsReferenced r = record {
    group_members =
        λ g u h. ground (arith, r.group_members g u, get-insert g group.id group_row s.groups);
    user_policies = λ u p h. ground (arith, r.user_policies u p);
    group_policies =
        λ g p h. ground (arith, r.group_policies g p, get-insert g group.id group_row s.groups);
    credentials = λ k c h. ground (arith, r.credentials k c);
    external_principals = λ k p h. ground (arith, r.external_principals k p);
  }
