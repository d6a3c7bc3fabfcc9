-- ===== src/Service/Repeats.antt =====
-- crates/lakefs-authz/src/service.rs: a request that is sent again.
pub mod Claims
use lakefs_auth.Common.{ℕ, Bool-cases, inl, inr, ◌+◌, ◌≡◌, refl, true, false, Option, arith}
use lakefs_auth.Common.Int.{ℤ}
use lakefs_auth.Std.Order.{text_ord}
use lakefs_auth.Std.Str.{codes}
use lakefs_auth.Std.BTreeMap.{contains_key}
use lakefs_auth.Std.BTreeMap.Laws.{get-insert}
use lakefs_auth.Std.Result.{ok, err, Result-cases}
use lakefs_auth.Core.Validate.{validate_entity_id}
use lakefs_auth.Core.Error.{ApiError}
use lakefs_auth.Core.Model.{User, UserCreation, Group, GroupCreation, ClaimTokenId}
use lakefs_auth.Store.Types.{
  NewUser, GroupRecord, eq_option_self, validated_user, validated_group, optional_text,
}
use lakefs_auth.Store.Mem.Inner.{Inner, user_record}
use lakefs_auth.Store.Mem.Users
use lakefs_auth.Store.Mem.Groups
use lakefs_auth.Store.Mem.Credentials
use lakefs_auth.Service.{
  create_user, create_group, claim_token_id, create_or_existing, existing_or_conflict, same_user,
  from_unix, user_inserted, invited,
}

module _ {T : Type 0} (as_second : T → ℤ) where
  -- A group that was created is created again: the answer is the same group, and the store stays as
  -- it is.
  pub create_group-create_group :
      (first second : T) (body : GroupCreation) (s : Inner T) (group : Group)
      → (create_group as_second first body s).0 ≡ ok group
      → create_group as_second second body (create_group as_second first body s).1
        ≡ (ok group, (create_group as_second first body s).1)
  unfolding create_group validated_group Groups.create_group Groups.get_group create_or_existing
      existing_or_conflict
  create_group-create_group first second body s group h = ground (
    arith,
    h,
    get-insert body.id body.id (row first) s.groups,
    text_ord.cmp_self body.id,
    eq_option_self body.description,
  )
    where
      row : T → GroupRecord T
      row t = record { id = body.id; description = body.description; creation_date = t }

  -- The values of a request match the row that it made.
  pub same_user_self :
      (new : NewUser T) (user_id : ℕ) (second : T)
      → same_user (record new { creation_date = second }) (user_record new user_id) ≡ true
  unfolding same_user
  same_user_self new user_id second = ground (
    arith,
    eq_option_self new.friendly_name,
    eq_option_self new.email,
    eq_option_self new.source,
    eq_option_self new.external_id,
    eq_option_self new.encrypted_password,
  )

  abbrev AnswersAgain : NewUser T → T → Inner T → Type 0
  AnswersAgain new second s =
      (user : User)
      → (user_inserted as_second s (ok new)).0 ≡ ok user
      → user_inserted as_second (user_inserted as_second s (ok new)).1
          (ok (record new { creation_date = second }))
        ≡ (ok user, (user_inserted as_second s (ok new)).1)

  -- The row is there already: neither insert changes the store.
  again_existing :
      (new : NewUser T) (second : T) (s : Inner T)
      → contains_key new.username s.users ≡ true
      → AnswersAgain new second s
  unfolding Users.create_user Users.get_user create_or_existing existing_or_conflict
  again_existing new second s there user h =
      let same : same_user (record new { creation_date = second }) ≡ same_user new =
        unfold same_user in refl in
      ground (arith, there, h, same)

  again_new :
      (new : NewUser T) (second : T) (s : Inner T)
      → contains_key new.username s.users ≡ false
      → AnswersAgain new second s
  unfolding Users.create_user Users.get_user create_or_existing existing_or_conflict
  again_new new second s absent user h = ground (
    arith,
    absent,
    h,
    same_user_self new (s.next_user_id + 1) second,
    get-insert new.username new.username (user_record new (s.next_user_id + 1)) s.users,
    text_ord.cmp_self new.username,
  )

  again : (new : NewUser T) (second : T) (s : Inner T) → AnswersAgain new second s
  again new second s = elim (Bool-cases (contains_key new.username s.users)) [
    | inl there ↦ again_existing new second s there
    | inr absent ↦ again_new new second s absent
  ]

  abbrev requested : UserCreation → T → NewUser T
  requested body now = record {
    username = body.username;
    creation_date = now;
    friendly_name = optional_text body.friendly_name;
    email = optional_text body.email;
    source = optional_text body.source;
    external_id = optional_text body.external_id;
    encrypted_password = body.encrypted_password;
  }

  -- A user that was created is created again, at whatever time: the answer is the same user, and the
  -- store stays as it is.
  pub create_user-create_user :
      (first second : T) (body : UserCreation) (s : Inner T) (user : User)
      → (create_user as_second first body s).0 ≡ ok user
      → create_user as_second second body (create_user as_second first body s).1
        ≡ (ok user, (create_user as_second first body s).1)
  unfolding create_user validated_user
  create_user-create_user first second body s user h = elim (Bool-cases (invited body.invite)) [
    | inl asked ↦ absurd (ground (arith, asked, h))
    | inr plain ↦ elim (Result-cases (validate_entity_id "user" body.username)) [
      | inr (e, refused) ↦ absurd (ground (arith, plain, h, refused))
      | inl (tt, accepted) ↦
          rw (plain, accepted)
            (again (requested body first) second s user (rw (plain, accepted) at h))
    ]
  ]
