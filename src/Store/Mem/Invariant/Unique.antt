-- ===== src/Store/Mem/Invariant/Unique.antt =====
-- User ids, emails and external ids stay unique.
use lakefs_auth.Common.{
  ◌+◌, ◌≡◌, refl, sym, ◌∙◌, Option-cases, Bool-cases, Bool, false, some, [], ◌∷◌, any, arith, ◌≢◌,
  inl, inr,
}
use lakefs_auth.Std.Order.{Text, text_ord, ◌==◌, Ord}
use lakefs_auth.Std.BTreeMap.{BTreeMap, get, values}
use lakefs_auth.Std.BTreeMap.Laws.{get-insert, get-remove}
use lakefs_auth.Std.Result.{ok, Result-cases}
use lakefs_auth.Store.Types.{UserRecord, NewUser, eq_option}
use lakefs_auth.Store.Mem.Inner.{Inner, user_record, check_user}
use lakefs_auth.Store.Mem.Users.{create_user, set_friendly_name, delete_user}
use lakefs_auth.Store.Mem.Invariant.{IsOrdered, IsUnique}

-- What no value of a map has, no row that is found has.
pub any-values {ℓ κ} :
    {K : Type ℓ} {V : Type κ} ⦃o : Ord K⦄ (p : V → Bool) (k : K) (v : V) (m : BTreeMap K V)
    → any p (values m) ≡ false
    → get k m ≡ some v
    → p v ≡ false
unfolding get
any-values p k v [] h e = cc
any-values p k v ((j, w) ∷ m) h e = ground (arith, any-values p k v m)

module _ {T : Type 0} (s t : Inner T) where
  -- A row of `t` is a row of `s`, up to what need not be unique.
  abbrev pub RowKept : Text → Type 0
  RowKept k =
      (v : UserRecord T)
      → get k t.users ≡ some v
      → (u : UserRecord T) × (get k s.users ≡ some u)
        × (u.user_id ≡ v.user_id)
        × (u.email ≡ v.email)
        × (u.external_id ≡ v.external_id)

  pub kept-IsUnique :
      t.next_user_id ≡ s.next_user_id → ((k : Text) → RowKept k) → IsUnique s → IsUnique t
  kept-IsUnique same keep r = record {
    assigned = λ k v h. let (u, p, e, _, _) = keep k v h in rw (← e, same) (r.assigned k u p);
    user_ids = λ j k u v p q e.
        let (u', p', eu, _, _) = keep j u p in
        let (v', q', ev, _, _) = keep k v q in r.user_ids j k u' v' p' q' (eu ∙ e ∙ sym ev);
    emails = λ j k u v x p q a b.
        let (u', p', _, eu, _) = keep j u p in
        let (v', q', _, ev, _) = keep k v q in r.emails j k u' v' x p' q' (eu ∙ a) (ev ∙ b);
    external_ids = λ j k u v x p q a b.
        let (u', p', _, _, eu) = keep j u p in
        let (v', q', _, _, ev) = keep k v q in r.external_ids j k u' v' x p' q' (eu ∙ a) (ev ∙ b);
  }

  -- A call that leaves the users alone.
  pub same_users-IsUnique :
      (t.users ≡ s.users) × (t.next_user_id ≡ s.next_user_id) → IsUnique s → IsUnique t
  same_users-IsUnique (eu, en) = kept-IsUnique en (λ k v h. (v, rw (← eu) h, refl, refl, refl))

module _ {T : Type 0} (user : NewUser T) (s : Inner T) where
  abbrev row : UserRecord T
  row = user_record user (s.next_user_id + 1)

  -- A user that passes the checks has an email and an external id that no row has.
  new_email :
      (k : Text) (u : UserRecord T) (e : Text)
      → check_user user s ≡ ok tt
      → get k s.users ≡ some u
      → user.email ≡ some e
      → u.email ≢ some e
  unfolding check_user
  new_email k u e h p q same =
      ground (arith, any-values (λ v. eq_option v.email (some e)) k u s.users, text_ord.cmp_self e)

  new_external_id :
      (k : Text) (u : UserRecord T) (e : Text)
      → check_user user s ≡ ok tt
      → get k s.users ≡ some u
      → user.external_id ≡ some e
      → u.external_id ≢ some e
  unfolding check_user
  new_external_id k u e h p q same =
      ground
        (arith, any-values (λ v. eq_option v.external_id (some e)) k u s.users, text_ord.cmp_self e)

  pub create_user-IsUnique : IsUnique s → IsUnique (create_user user s).1
  unfolding create_user
  create_user-IsUnique r = record {
    assigned = λ k u h. ground (arith, r.assigned k u, get-insert k user.username row s.users);
    user_ids = λ j k u v p q e. ground (
      arith,
      r.user_ids j k u v,
      r.assigned j u,
      r.assigned k v,
      get-insert j user.username row s.users,
      get-insert k user.username row s.users,
      text_ord.eq_of user.username j,
      text_ord.eq_of user.username k,
    );
    emails = λ j k u v e p q a b. elim (Result-cases (check_user user s)) [
      | inl (_, done) ↦ ground (
        arith,
        r.emails j k u v e,
        new_email j u e,
        new_email k v e,
        get-insert j user.username row s.users,
        get-insert k user.username row s.users,
        text_ord.eq_of user.username j,
        text_ord.eq_of user.username k,
      )
      | inr (x, failed) ↦ ground (arith, r.emails j k u v e)
    ];
    external_ids = λ j k u v e p q a b. elim (Result-cases (check_user user s)) [
      | inl (_, done) ↦ ground (
        arith,
        r.external_ids j k u v e,
        new_external_id j u e,
        new_external_id k v e,
        get-insert j user.username row s.users,
        get-insert k user.username row s.users,
        text_ord.eq_of user.username j,
        text_ord.eq_of user.username k,
      )
      | inr (x, failed) ↦ ground (arith, r.external_ids j k u v e)
    ];
  }

module _ {T : Type 0} (username friendly_name : Text) (s : Inner T) where
  abbrev renamed : UserRecord T → UserRecord T
  renamed u = record u { friendly_name = some friendly_name }

  renamed_rows : (k : Text) → RowKept s (set_friendly_name username friendly_name s).1 k
  unfolding set_friendly_name
  renamed_rows k v h = elim (Option-cases (get username s.users)) [
    | inl absent ↦ (v, ground arith, refl, refl, refl)
    | inr (u, found) ↦ elim (Bool-cases (username == k)) [
      | inl here ↦ (
        u,
        ground (arith, text_ord.eq_of username k),
        ground (arith, get-insert k username (renamed u) s.users),
        ground (arith, get-insert k username (renamed u) s.users),
        ground (arith, get-insert k username (renamed u) s.users),
      )
      | inr other ↦ (v, ground (arith, get-insert k username (renamed u) s.users), refl, refl, refl)
    ]
  ]

  pub set_friendly_name-IsUnique :
      IsUnique s → IsUnique (set_friendly_name username friendly_name s).1
  unfolding set_friendly_name
  set_friendly_name-IsUnique r = kept-IsUnique s _ (ground arith) renamed_rows r

module _ {T : Type 0} (username : Text) (s : Inner T) (o : IsOrdered s) where
  deleted_rows : (k : Text) → RowKept s (delete_user username s).1 k
  unfolding delete_user
  deleted_rows k v h = (v, ground (arith, get-remove k username s.users o.users), refl, refl, refl)

  pub delete_user-IsUnique : IsUnique s → IsUnique (delete_user username s).1
  unfolding delete_user
  delete_user-IsUnique r = kept-IsUnique s _ (ground arith) deleted_rows r
