-- ===== src/Store/Bootstrap/Settles/Rows.antt =====
-- crates/lakefs-authz/src/store/mem.rs: the rows of a plan that are in place.
use lakefs_auth.Common.{◌≡◌, Bool, true, none, some, arith, inl, inr, Bool-cases, Option-cases, ◌+◌}
use lakefs_auth.Std.Order.{text_ord, pair_ord, ◌==◌}
use lakefs_auth.Std.BTreeMap.{get, insert}
use lakefs_auth.Std.Result.{ok, Result-cases}
use lakefs_auth.Store.Types.{
  NewUser, NewGroup, NewPolicy, NewCredential, UserRecord, GroupRecord, PolicyRecord,
  CredentialRecord, same_identity_as, eq_option_self,
}
use lakefs_auth.Store.Mem.Inner.{
  Inner, insert_user, insert_group, insert_policy, insert_credential, user_record, check_user,
}
use lakefs_auth.Store.Bootstrap.{apply_user, apply_credential}
use lakefs_auth.Store.Bootstrap.Inner.{
  inner_writer, insert_policy_if_missing, insert_group_if_missing, insert_user_if_missing,
  insert_credential_if_missing,
}
use lakefs_auth.Store.Bootstrap.Grows.{
  Grows, Grows-self, Grows-users, Grows-groups, Grows-policies, Grows-credentials, IsWithin-insert,
  get-insert_self,
}
use lakefs_auth.Store.Bootstrap.Settles.{Settles}

module _ {T : Type 0} where
  abbrev pub HasPolicy : NewPolicy T → Inner T → Type 0
  HasPolicy a s = (row : PolicyRecord T) × (get a.name s.policies ≡ some row)

  abbrev pub HasGroup : NewGroup T → Inner T → Type 0
  HasGroup a s = (row : GroupRecord T) × (get a.id s.groups ≡ some row)

  abbrev pub HasUser : NewUser T → Inner T → Type 0
  HasUser a s =
      (row : UserRecord T) × (get a.username s.users ≡ some row) × (same_identity_as a row ≡ true)

  abbrev pub HasCredential : NewCredential T → Inner T → Type 0
  HasCredential a s =
      (row : CredentialRecord T) × (get a.access_key_id s.credentials ≡ some row)
      × ((row.username == a.username) ≡ true)

  first_policy :
      (a : NewPolicy T) (s t : Inner T) (b : Bool)
      → insert_policy_if_missing a s ≡ (ok b, t)
      → Grows s t × HasPolicy a t
  unfolding insert_policy_if_missing insert_policy
  first_policy a s t b h = elim (Option-cases (get a.name s.policies)) [
    | inr (row, there) ↦
        (let e : s ≡ t = ground (arith, there, h) in
          (rw (← e) (Grows-self s), (row, rw (← e) there)))
    | inl absent ↦
        (let row : PolicyRecord T = record {
          name = a.name;
          creation_date = a.creation_date;
          statement = a.statement;
          acl = a.acl;
        } in
          let e : record s { policies = insert a.name row s.policies } ≡ t =
            ground (arith, absent, h) in
          (
            rw (← e) (
                Grows-policies s (insert a.name row s.policies)
                  (IsWithin-insert a.name row s.policies absent)),
            (row, rw (← e) (get-insert_self a.name row s.policies)),
          ))
  ]

  pub policy-Settles : Settles HasPolicy insert_policy_if_missing
  unfolding insert_policy_if_missing
  policy-Settles = record {
    first = first_policy;
    stays = λ a s t g h. (h.0, g.policies a.name h.0 h.1);
    again = λ a s valid h. ground (arith, h.1);
  }

  first_group :
      (a : NewGroup T) (s t : Inner T) (b : Bool)
      → insert_group_if_missing a s ≡ (ok b, t)
      → Grows s t × HasGroup a t
  unfolding insert_group_if_missing insert_group
  first_group a s t b h = elim (Option-cases (get a.id s.groups)) [
    | inr (row, there) ↦
        (let e : s ≡ t = ground (arith, there, h) in
          (rw (← e) (Grows-self s), (row, rw (← e) there)))
    | inl absent ↦
        (let row : GroupRecord T = record {
          id = a.id;
          description = a.description;
          creation_date = a.creation_date;
        } in
          let e : record s { groups = insert a.id row s.groups } ≡ t = ground (arith, absent, h) in
          (
            rw (← e) (
                Grows-groups s (insert a.id row s.groups)
                  (IsWithin-insert a.id row s.groups absent)),
            (row, rw (← e) (get-insert_self a.id row s.groups)),
          ))
  ]

  pub group-Settles : Settles HasGroup insert_group_if_missing
  unfolding insert_group_if_missing
  group-Settles = record {
    first = first_group;
    stays = λ a s t g h. (h.0, g.groups a.id h.0 h.1);
    again = λ a s valid h. ground (arith, h.1);
  }

  user_checked :
      (a : NewUser T) (s t : Inner T) (b : Bool)
      → get a.username s.users ≡ none
      → apply_user (inner_writer T) a s ≡ (ok b, t)
      → check_user a s ≡ ok tt
  unfolding apply_user insert_user_if_missing insert_user
  user_checked a s t b absent h = elim (Result-cases (check_user a s)) [
    | inl (tt, checked) ↦ checked
    | inr (e, refused) ↦ absurd (ground (arith, absent, refused, h))
  ]

  first_user :
      (a : NewUser T) (s t : Inner T) (b : Bool)
      → apply_user (inner_writer T) a s ≡ (ok b, t)
      → Grows s t × HasUser a t
  unfolding apply_user insert_user_if_missing insert_user same_identity_as
  first_user a s t b h = elim (Option-cases (get a.username s.users)) [
    | inr (row, there) ↦ elim (Bool-cases (same_identity_as a row)) [
      | inl same ↦
          (let e : s ≡ t = ground (arith, there, same, h) in
            (rw (← e) (Grows-self s), (row, rw (← e) there, same)))
      | inr other ↦ absurd (ground (arith, there, other, h))
    ]
    | inl absent ↦
        (let row = user_record a (s.next_user_id + 1) in
          let checked = user_checked a s t b absent h in
          let e : record s {
            next_user_id = s.next_user_id + 1;
            users = insert a.username row s.users;
          }
              ≡ t =
            ground (arith, absent, checked, h) in
          (
            rw (← e) (
                Grows-users s (s.next_user_id + 1) (insert a.username row s.users)
                  (IsWithin-insert a.username row s.users absent)),
            (row, rw (← e) (get-insert_self a.username row s.users), eq_option_self a.external_id),
          ))
  ]

  pub user-Settles : Settles HasUser (apply_user (inner_writer T))
  unfolding apply_user insert_user_if_missing
  user-Settles = record {
    first = first_user;
    stays = λ a s t g h. (h.0, g.users a.username h.0 h.1, h.2);
    again = λ a s valid h. ground (arith, h.1, h.2);
  }

  first_credential :
      (a : NewCredential T) (s t : Inner T) (b : Bool)
      → apply_credential (inner_writer T) a s ≡ (ok b, t)
      → Grows s t × HasCredential a t
  unfolding apply_credential insert_credential_if_missing insert_credential
  first_credential a s t b h = elim (Option-cases (get a.access_key_id s.credentials)) [
    | inr (row, there) ↦ elim (Bool-cases (row.username == a.username)) [
      | inl same ↦
          (let e : s ≡ t = ground (arith, there, same, h) in
            (rw (← e) (Grows-self s), (row, rw (← e) there, same)))
      | inr other ↦ absurd (ground (arith, there, other, h))
    ]
    | inl absent ↦ elim (Option-cases (get a.username s.users)) [
      | inl nobody ↦ absurd (ground (arith, absent, nobody, h))
      | inr (user, found) ↦
          (let row : CredentialRecord T = record {
            access_key_id = a.access_key_id;
            username = a.username;
            user_id = user.user_id;
            secret_ciphertext = a.secret_ciphertext;
            creation_date = a.creation_date;
          } in
            let e : record s { credentials = insert a.access_key_id row s.credentials } ≡ t =
              ground (arith, absent, found, h) in
            (
              rw (← e) (
                  Grows-credentials s (insert a.access_key_id row s.credentials)
                    (IsWithin-insert a.access_key_id row s.credentials absent)),
              (
                row,
                rw (← e) (get-insert_self a.access_key_id row s.credentials),
                ground (arith, text_ord.cmp_self a.username),
              ),
            ))
    ]
  ]

  pub credential-Settles : Settles HasCredential (apply_credential (inner_writer T))
  unfolding apply_credential insert_credential_if_missing
  credential-Settles = record {
    first = first_credential;
    stays = λ a s t g h. (h.0, g.credentials a.access_key_id h.0 h.1, h.2);
    again = λ a s valid h. ground (arith, h.1, h.2);
  }
