-- ===== src/Handlers/Lookup.antt =====
-- crates/lakefs-authz/src/handlers/users.rs: a user that was created, looked up by its external id.
use lakefs_auth.Common.{
  ◌+◌, ◌≡◌, refl, sym, ap, ◌∙◌, true, false, Option, none, some, [], ◌∷◌, inl, inr, arith,
  Bool-cases, Option-cases,
}
use lakefs_auth.Common.Int.{ℤ}
use lakefs_auth.Std.Order.{Text, text_ord, ==_iff}
use lakefs_auth.Std.BTreeMap.{get, contains_key}
use lakefs_auth.Std.BTreeMap.Laws.{get-insert, find-values}
use lakefs_auth.Std.Result.{Result, ok, err, Result-cases}
use lakefs_auth.Core.Error.{ApiError}
use lakefs_auth.Core.Model.{User, UserCreation}
use lakefs_auth.Core.Text.{non_blank}
use lakefs_auth.Core.Validate.{validate_entity_id}
use lakefs_auth.Core.Pagination.{PaginationParams, last, into_response}
use lakefs_auth.Store.Types.{
  UserRecord, NewUser, ◌and_then◌, eq_option, optional_text, validated_user,
}
use lakefs_auth.Store.Mem.Inner.{Inner, user_record}
use lakefs_auth.Store.Mem.Users
use lakefs_auth.Store.Mem.Calls
use lakefs_auth.Store.Mem.Invariant.{IsValid}
use lakefs_auth.Store.Mem.Invariant.Reach.{run-IsValid}
use lakefs_auth.Store.Mem.Calls.{run}
use lakefs_auth.Service.{
  user_to_wire, user_inserted, same_user, create_or_existing, existing_or_conflict, invited,
  fields_of,
}
use lakefs_auth.Service
use lakefs_auth.Service.Repeats.{same_user_self}
use lakefs_auth.Handlers.Users.{list_users, create_user, filtered, single}
use lakefs_auth.Handlers.{created, read}

module _ {T : Type 0} (as_second : T → ℤ) where
  -- The answer is a row that stands in the store and has what was asked for.
  abbrev IsStored : NewUser T → User → Inner T → Type 0
  IsStored new user s =
      (row : UserRecord T) × (get new.username s.users ≡ some row)
      × (user ≡ user_to_wire as_second row)
      × (same_user new row ≡ true)

  existing_stored :
      (new : NewUser T) (s : Inner T) (user : User)
      → contains_key new.username s.users ≡ true
      → (user_inserted as_second s (ok new)).0 ≡ ok user
      → IsStored new user (user_inserted as_second s (ok new)).1
  unfolding Users.create_user Users.get_user create_or_existing existing_or_conflict
  existing_stored new s user there h = elim (Option-cases (get new.username s.users)) [
    | inl absent ↦ absurd (ground (arith, absent, there))
    | inr (row, found) ↦ elim (Bool-cases (same_user new row)) [
      | inl same ↦ (row, ground (arith, there, found), ground (arith, there, found, same, h), same)
      | inr other ↦ absurd (ground (arith, there, found, other, h))
    ]
  ]

  new_stored :
      (new : NewUser T) (s : Inner T) (user : User)
      → contains_key new.username s.users ≡ false
      → (user_inserted as_second s (ok new)).0 ≡ ok user
      → IsStored new user (user_inserted as_second s (ok new)).1
  unfolding Users.create_user Users.get_user create_or_existing existing_or_conflict
  new_stored new s user absent h =
      let row = user_record new (s.next_user_id + 1) in
      let placed = get-insert new.username new.username row s.users in
      (
        row,
        ground (arith, absent, h, placed, text_ord.cmp_self new.username),
        ground (arith, absent, h),
        same_user_self as_second new (s.next_user_id + 1) new.creation_date,
      )

  eq_option-some : (x : Text) (o : Option Text) → eq_option o (some x) ≡ true → o ≡ some x
  eq_option-some x none h = absurd (ground arith)
  eq_option-some x (some y) h = ap some ((==_iff y x).0 h)

  given_external_id :
      (new : NewUser T) (row : UserRecord T) (x : Text)
      → new.external_id ≡ some x
      → same_user new row ≡ true
      → row.external_id ≡ some x
  unfolding same_user
  given_external_id new row x given same = from_given row.external_id (ground (arith, given, same))
    where
      from_given : (o : Option Text) → eq_option (some x) o ≡ true → o ≡ some x
      from_given none h = absurd (ground arith)
      from_given (some y) h = ap some (sym ((==_iff x y).0 h))

  -- The row of a user is the only one with its external id.
  found_alone :
      (s : Inner T) (row : UserRecord T) (username x : Text)
      → IsValid s
      → get username s.users ≡ some row
      → row.external_id ≡ some x
      → Users.find_user_by_external_id x s ≡ ok (some row)
  unfolding Users.find_user_by_external_id
  found_alone s row username x valid there given = ap ok (
      find-values (λ u. eq_option u.external_id (some x)) username row s.users valid.ordered.users
        there (ground (arith, given, text_ord.cmp_self x))
        λ j u h passed.
          valid.unique.external_ids j username u row x h there
            (eq_option-some x u.external_id passed) given)

  user_inserted-IsValid :
      (new : NewUser T) (s : Inner T) → IsValid s → IsValid (user_inserted as_second s (ok new)).1
  unfolding run
  user_inserted-IsValid new s valid = run-IsValid (λ _ _. false) (Calls.create_user new) s valid

  abbrev requested : UserCreation → T → NewUser T
  requested body now = record {
    username = body.username;
    creation_date = now;
    friendly_name = optional_text body.friendly_name;
    email = optional_text body.email;
    source = optional_text body.source;
    external_id = optional_text body.external_id;
    encrypted_password = body.encrypted_password;
  }

  -- Only a request that passes the rules reaches the store.
  created-ok :
      (r : Result User ApiError × Inner T) (user : User)
      → (created r).0 ≡ ok (201, user)
      → r.0 ≡ ok user
  created-ok (ok u, w) user h = ground (arith, h)
  created-ok (err e, w) user h = absurd (ground arith)

  inserted_as :
      (now : T) (body : UserCreation) (s : Inner T) (user : User)
      → (Service.create_user as_second now body s).0 ≡ ok user
      → Service.create_user as_second now body s
        ≡ user_inserted as_second s (ok (requested body now))
  unfolding Service.create_user validated_user
  inserted_as now body s user h = elim (Bool-cases (invited body.invite)) [
    | inl asked ↦ absurd (ground (arith, asked, h))
    | inr plain ↦ elim (Result-cases (validate_entity_id "user" body.username)) [
      | inr (e, refused) ↦ absurd (ground (arith, plain, refused, h))
      | inl (u, accepted) ↦ rw (plain, accepted) refl
    ]
  ]

  stored :
      (new : NewUser T) (s : Inner T) (user : User)
      → (user_inserted as_second s (ok new)).0 ≡ ok user
      → IsStored new user (user_inserted as_second s (ok new)).1
  stored new s user h = elim (Bool-cases (contains_key new.username s.users)) [
    | inl there ↦ existing_stored new s user there h
    | inr absent ↦ new_stored new s user absent h
  ]

  -- A user that a valid store answers to a create is the one that a listing by its external id answers,
  -- and the only one, whatever page the listing asks for.
  pub list_users-create_user :
      (now : T) (body : UserCreation) (page : PaginationParams) (s : Inner T) (user : User)
      (external_id : Text)
      → IsValid s
      → body.external_id and_then non_blank ≡ some external_id
      → (create_user as_second now body s).0 ≡ ok (201, user)
      → list_users as_second
          (record { page = page; id = none; email = none; external_id = body.external_id })
          (create_user as_second now body s).1
        ≡ ok (into_response (last (user ∷ [])))
  unfolding list_users create_user
  list_users-create_user now body page s user external_id valid given h =
      let answered = created-ok (Service.create_user as_second now body s) user h in
      let made = inserted_as now body s user answered in
      let new = requested body now in
      let after = (user_inserted as_second s (ok new)).1 in
      let (row, there, wire, same) = stored new s user (ap (λ r. r.0) (sym made) ∙ answered) in
      let asked : new.external_id ≡ some external_id = unfold optional_text in given in
      let found =
        found_alone after row new.username external_id (user_inserted-IsValid new s valid) there
          (given_external_id new row external_id asked same) in
      ap (λ o. filtered as_second none none o page (Service.create_user as_second now body s).1)
        given
      ∙ ap (λ r. read (single as_second) (Users.find_user_by_external_id external_id r.1)) made
      ∙ ap (λ r. read (single as_second) r) found
      ∙ ap (λ u. ok (into_response (last (u ∷ [])))) (sym wire)
