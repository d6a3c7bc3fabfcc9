-- ===== src/Client/Ensure/Calls.antt =====
-- What a login asks of the server.
use lakefs_auth.Common.{
  ℕ, suc, ◌≡◌, refl, Option, none, some, String, List, [], ◌∷◌, arith, Option-cases, inl, inr, Bool,
}
use lakefs_auth.Std.Order.{Text}
use lakefs_auth.Std.Result.{Result, ok, err, Result-cases}
use lakefs_auth.Core.Error.{to_string}
use lakefs_auth.Core.Validate.{validate_entity_id}
use lakefs_auth.Core.Model.{User, UserCreation}
use lakefs_auth.Client.{ClientError}
use lakefs_auth.Client.Ensure
use lakefs_auth.Client.Ensure.{
  Api, EnsureUserSpec, EnsuredUser, find_user, email_holder, segment, roll_back_create, join_groups,
  with_groups, after_conflict, create_user_with_groups, ensure_user, creation_of,
}

pub data Request : Type 0 where
  list_users : String → Text → Request
  create_user : UserCreation → Request
  delete_user : Text → Request
  add_group_membership : Text → Text → Request
  update_friendly_name : Text → Text → Request

-- The requests so far, the last one first.
abbrev pub Log : Type 0
Log = List Request

-- A server that answers by the requests so far.
pub record Server : Type 0 where
  pub utf8_percent_encode : (ℕ → Bool) → Text → Text
  pub listed : Log → Result (List User) ClientError
  pub made : Log → Result User ClientError
  pub done : Log → Result (Unit {0}) ClientError

abbrev pub logged : Server → Api Log
logged server = record {
  utf8_percent_encode = server.utf8_percent_encode;
  list_users = λ filter value log.
      (server.listed (list_users filter value ∷ log), list_users filter value ∷ log);
  create_user =
      λ creation log. (server.made (create_user creation ∷ log), create_user creation ∷ log);
  delete_user =
      λ username log. (server.done (delete_user username ∷ log), delete_user username ∷ log);
  add_group_membership = λ group username log. (
    server.done (add_group_membership group username ∷ log),
    add_group_membership group username ∷ log,
  );
}

abbrev pub deletes : Log → ℕ
deletes [] = 0
deletes (delete_user username ∷ log) = suc (deletes log)
deletes (_ ∷ log) = deletes log

abbrev pub last_request : Log → Option Request
last_request [] = none
last_request (r ∷ log) = some r

module _ (server : Server) where
  -- A membership is asked for once, or not at all where a name is no path segment.
  deletes-add_group_membership :
      (group username : Text) (log : Log)
      → deletes (Ensure.add_group_membership (logged server) group username log).1 ≡ deletes log
  unfolding Ensure.add_group_membership
  deletes-add_group_membership group username log = ground arith

  join_groups_ok :
      (username : Text) (groups : List Text) (log : Log)
      → (join_groups (logged server) username groups log).0 ≡ ok tt
      → deletes (join_groups (logged server) username groups log).1 ≡ deletes log
  unfolding join_groups
  join_groups_ok username [] log h = refl
  join_groups_ok username (group ∷ groups) log h = ground (
    arith,
    h,
    deletes-add_group_membership group username log,
    join_groups_ok username groups
        (Ensure.add_group_membership (logged server) group username log).1,
  )

  last_request-roll_back_create :
      (username path : Text) (log : Log)
      → segment (logged server) username ≡ ok path
      → last_request (roll_back_create (logged server) username log) ≡ some (delete_user path)
  unfolding roll_back_create Ensure.delete_user
  last_request-roll_back_create username path log named = ground (arith, named)

  join_groups_err :
      (username path : Text) (groups : List Text) (log : Log) (e : ClientError)
      → segment (logged server) username ≡ ok path
      → (join_groups (logged server) username groups log).0 ≡ err e
      → last_request (join_groups (logged server) username groups log).1 ≡ some (delete_user path)
  unfolding join_groups
  join_groups_err username path [] log e named h = absurd cc
  join_groups_err username path (group ∷ groups) log e named h =
      let asked = Ensure.add_group_membership (logged server) group username log in
      ground (
        arith,
        h,
        join_groups_err username path groups asked.1 e named,
        last_request-roll_back_create username path asked.1 named,
      )

  -- Under a name that is no path segment no request of a membership and no delete is sent.
  add_group_membership-refused :
      (group username : Text) (log : Log) (refused : ClientError)
      → segment (logged server) username ≡ err refused
      → (Ensure.add_group_membership (logged server) group username log).1 ≡ log
  unfolding Ensure.add_group_membership
  add_group_membership-refused group username log refused unnamed = ground (arith, unnamed)

  add_group_membership-fatal :
      (group username : Text) (log : Log) (refused : ClientError)
      → segment (logged server) username ≡ err refused
      → (reason : Text) × ((Ensure.add_group_membership (logged server) group username log).0
          ≡ err (ClientError.invalid_id reason))
  unfolding Ensure.add_group_membership segment
  add_group_membership-fatal group username log refused unnamed =
      elim (Result-cases (validate_entity_id "entity" group)) [
        | inr (e, bad) ↦ (to_string e, rw bad refl)
        | inl (u, good) ↦ elim (Result-cases (validate_entity_id "entity" username)) [
          | inr (e, bad) ↦ (to_string e, rw (good, bad) refl)
          | inl (v, fine) ↦ absurd (ground (arith, fine, unnamed))
        ]
      ]

  join_groups-refused :
      (username : Text) (groups : List Text) (log : Log) (refused : ClientError)
      → segment (logged server) username ≡ err refused
      → (join_groups (logged server) username groups log).1 ≡ log
  unfolding join_groups roll_back_create Ensure.delete_user
  join_groups-refused username [] log refused unnamed = refl
  join_groups-refused username (group ∷ groups) log refused unnamed =
      let (reason, fatal) = add_group_membership-fatal group username log refused unnamed in
      ground
        (arith, unnamed, fatal, add_group_membership-refused group username log refused unnamed)

  -- When the server answers the first create of a login with the user and the login fails all the
  -- same, whatever the server answers later, the last request deletes that user again, by the
  -- encoded name, where the name of the user is one path segment; where it is none, nothing is sent
  -- after the create.
  pub last_request-create_user_with_groups :
      (spec : EnsureUserSpec) (log : Log) (user : User) (e : ClientError)
      → server.made (create_user (creation_of spec spec.email) ∷ log) ≡ ok user
      → (create_user_with_groups (logged server) spec log).0 ≡ err e
      → ((path : Text)
          → segment (logged server) user.username ≡ ok path
          → last_request (create_user_with_groups (logged server) spec log).1
            ≡ some (delete_user path))
        × ((refused : ClientError)
            → segment (logged server) user.username ≡ err refused
            → (create_user_with_groups (logged server) spec log).1
              ≡ create_user (creation_of spec spec.email) ∷ log)
  unfolding create_user_with_groups
  last_request-create_user_with_groups spec log user e made h =
      let asked = create_user (creation_of spec spec.email) ∷ log in
      (
        λ path named.
            ground (arith, made, h, join_groups_err user.username path spec.groups asked e named),
        λ refused unnamed.
            ground
              (arith, made, join_groups-refused user.username spec.groups asked refused unnamed),
      )

  deletes-find_user :
      (filter : String) (value : Text) (log : Log)
      → deletes (find_user (logged server) filter value log).1 ≡ deletes log
  unfolding find_user
  deletes-find_user filter value log = ground arith

  with_groups_ok :
      (spec : EnsureUserSpec) (user : User) (log : Log) (r : EnsuredUser)
      → (with_groups (logged server) spec user log).0 ≡ ok r
      → deletes (with_groups (logged server) spec user log).1 ≡ deletes log
  with_groups_ok spec user log r h = ground (arith, h, join_groups_ok user.username spec.groups log)

  deletes-email_holder :
      (spec : EnsureUserSpec) (log : Log)
      → deletes (email_holder (logged server) spec log).1 ≡ deletes log
  unfolding email_holder
  deletes-email_holder spec log = elim (Option-cases spec.email) [
    | inl none_given ↦ ground (arith, none_given)
    | inr (email, given) ↦ ground (arith, given, deletes-find_user "email" email log)
  ]

  after_conflict_ok :
      (spec : EnsureUserSpec) (log : Log) (r : EnsuredUser)
      → (after_conflict (logged server) spec log).0 ≡ ok r
      → deletes (after_conflict (logged server) spec log).1 ≡ deletes log
  unfolding after_conflict
  after_conflict_ok spec log r h = grind (
    arith,
    h,
    deletes-find_user "external_id" spec.external_id log,
    λ (l : Log). deletes-email_holder spec l,
    λ (user : User) (l : Log). with_groups_ok spec user l r,
  )

  -- A login that ends with a user deletes nothing, whatever the server answers.
  pub deletes-ensure_user :
      (spec : EnsureUserSpec) (log : Log) (r : EnsuredUser)
      → (ensure_user (logged server) spec log).0 ≡ ok r
      → deletes (ensure_user (logged server) spec log).1 ≡ deletes log
  unfolding ensure_user create_user_with_groups
  deletes-ensure_user spec log r h = grind (
    arith,
    h,
    deletes-find_user "external_id" spec.external_id log,
    λ (l : Log). after_conflict_ok spec l r,
    λ (user : User) (l : Log). with_groups_ok spec user l r,
  )
