-- ===== src/Service.antt =====
-- crates/lakefs-authz/src/service.rs: what the handlers do, over the store in memory. `T` stands for
-- jiff's `Timestamp`: `as_second` and `from_second` are its conversions, and `now` is what
-- `Timestamp::now()` answers.
pub mod PolicyRequests
pub mod KeyRequests
pub mod Repeats
pub mod Secrets
pub mod Reordering
use lakefs_auth.Common.{
  Bool, true, false, not, ◌&&◌, ◌||◌, Option, none, some, ◌++◌, is_none, is_empty, if◌then◌else◌,
}
use lakefs_auth.Common.Int.{ℤ, pos, negsuc, ◌≤?ℤ◌}
use lakefs_auth.Std.Order.{Text, text_ord, ◌==◌}
use lakefs_auth.Std.Str.{codes, decimal}
use lakefs_auth.Std.Result.{Result, ok, err, ◌>>=◌, ◌>>◌, ok_or}
use lakefs_auth.Core.Error.{ApiError}
use lakefs_auth.Core.Model.{
  Bytes, User, UserCreation, Group, GroupCreation, Policy, Statement, ClaimTokenId,
}
use lakefs_auth.Core.Validate.{validate_entity_id}
use lakefs_auth.Store.Error.{StoreError, StoreResult, to_api_error}
use lakefs_auth.Store.Types.{
  UserRecord, NewUser, UserFields, GroupRecord, NewGroup, PolicyRecord, NewPolicy, eq_option,
  validated_user, validated_group,
}
use lakefs_auth.Store.Types
use lakefs_auth.Store.Mem.Inner.{Inner}
use lakefs_auth.Store.Mem.Users
use lakefs_auth.Store.Mem.Groups
use lakefs_auth.Store.Mem.Policies
use lakefs_auth.Store.Mem.Credentials

abbrev pub min_unix_seconds : ℤ
min_unix_seconds = negsuc 62135596799

abbrev pub map_ok : {A B E : Type 0} → (A → B) → Result A E → Result B E
map_ok f (ok a) = ok (f a)
map_ok f (err e) = err e

-- An insert that found the row: the row as it is read again, if it is the one that was asked for.
unfoldable pub existing_or_conflict :
    {A : Type 0} → StoreError → StoreResult A → (A → Bool) → Result A ApiError
existing_or_conflict conflict (ok existing) matches =
    if matches existing then ok existing else err (to_api_error conflict)
existing_or_conflict conflict (err (StoreError.not_found entity id)) matches =
    err (to_api_error conflict)
existing_or_conflict conflict (err (StoreError.already_exists entity id)) matches =
    err (to_api_error (StoreError.already_exists entity id))
existing_or_conflict conflict (err (StoreError.wrong_identity entity id)) matches =
    err (to_api_error (StoreError.wrong_identity entity id))
existing_or_conflict conflict (err (StoreError.backend e)) matches =
    err (to_api_error (StoreError.backend e))

-- `reread` reads the store after the insert, and is looked at only when the insert found the row.
unfoldable pub create_or_existing :
    {A : Type 0} → StoreResult A → StoreResult A → (A → Bool) → Result A ApiError
unfolding existing_or_conflict
create_or_existing (ok created) reread matches = ok created
create_or_existing (err (StoreError.already_exists entity id)) reread matches =
    existing_or_conflict (StoreError.already_exists entity id) reread matches
create_or_existing (err (StoreError.not_found entity id)) reread matches =
    err (to_api_error (StoreError.not_found entity id))
create_or_existing (err (StoreError.wrong_identity entity id)) reread matches =
    err (to_api_error (StoreError.wrong_identity entity id))
create_or_existing (err (StoreError.backend e)) reread matches =
    err (to_api_error (StoreError.backend e))

abbrev pub same_if_given : Option Text → Option Text → Bool
same_if_given requested existing = is_none requested || eq_option requested existing

abbrev pub invited : Option Bool → Bool
invited (some true) = true
invited _ = false

abbrev pub or_else : {A : Type 0} → Option A → Option A → Option A
or_else none b = b
or_else (some a) b = some a

abbrev pub fields_of : UserCreation → UserFields
fields_of body = record {
  friendly_name = body.friendly_name;
  email = body.email;
  source = body.source;
  external_id = body.external_id;
  encrypted_password = body.encrypted_password;
}

-- The claim of an id: one that was claimed before is a 400.
abbrev pub claimed : StoreResult (Unit {0}) → Result (Unit {0}) ApiError
claimed (ok u) = ok u
claimed (err (StoreError.already_exists entity id)) =
    err (ApiError.invalid (codes "token id was already claimed"))
claimed (err (StoreError.not_found entity id)) = err (to_api_error (StoreError.not_found entity id))
claimed (err (StoreError.wrong_identity entity id)) =
    err (to_api_error (StoreError.wrong_identity entity id))
claimed (err (StoreError.backend e)) = err (to_api_error (StoreError.backend e))

module _ {T : Type 0} where
  -- `from_second` is `Timestamp::from_second(seconds).ok()`.
  unfoldable pub from_unix : (ℤ → Option T) → Text → ℤ → Result T ApiError
  from_unix from_second field seconds =
      let invalid =
        ApiError.invalid (field ++ (codes " is not a valid unix timestamp: " ++ decimal seconds)) in
      if not (min_unix_seconds ≤?ℤ seconds)
      then err invalid
      else ok_or invalid (from_second seconds)

  abbrev pub user_to_wire : (T → ℤ) → UserRecord T → User
  user_to_wire as_second row = record {
    username = row.username;
    creation_date = as_second row.creation_date;
    friendly_name = row.friendly_name;
    email = row.email;
    source = row.source;
    encrypted_password = row.encrypted_password;
    external_id = row.external_id;
  }

  abbrev pub group_to_wire : (T → ℤ) → GroupRecord T → Group
  group_to_wire as_second row = record {
    id = some row.id;
    name = row.id;
    description = row.description;
    creation_date = as_second row.creation_date;
  }

  unfoldable pub same_user : NewUser T → UserRecord T → Bool
  same_user requested existing =
      same_if_given requested.friendly_name existing.friendly_name
      && same_if_given requested.email existing.email
      && same_if_given requested.source existing.source
      && same_if_given requested.external_id existing.external_id
      && same_if_given requested.encrypted_password existing.encrypted_password

  -- The insert of a row that was validated, the row read again, and the answer.
  abbrev pub user_inserted :
      (T → ℤ) → Inner T → Result (NewUser T) ApiError → Result User ApiError × Inner T
  user_inserted as_second s (err e) = (err e, s)
  user_inserted as_second s (ok requested) =
      let (created, s') = Users.create_user requested s in
      let reread = Users.get_user requested.username s' in
      (
        map_ok (user_to_wire as_second) (create_or_existing created reread (same_user requested)),
        s',
      )

  unfoldable pub create_user : (T → ℤ) → T → UserCreation → Inner T → Result User ApiError × Inner T
  unfolding Users.create_user Users.get_user create_or_existing same_user validated_user
  create_user as_second now body s =
      if invited body.invite
      then (
        err (
            ApiError.invalid
              (codes "invitations are not supported; create the user without invite")),
        s,
      )
      else user_inserted as_second s (validated_user body.username (fields_of body) now)

  abbrev pub group_inserted :
      (T → ℤ) → Inner T → Result (NewGroup T) ApiError → Result Group ApiError × Inner T
  group_inserted as_second s (err e) = (err e, s)
  group_inserted as_second s (ok requested) =
      let (created, s') = Groups.create_group requested s in
      let reread = Groups.get_group requested.id s' in
      let matches : GroupRecord T → Bool = λ g. same_if_given requested.description g.description in
      (map_ok (group_to_wire as_second) (create_or_existing created reread matches), s')

  unfoldable pub create_group :
      (T → ℤ) → T → GroupCreation → Inner T → Result Group ApiError × Inner T
  unfolding Groups.create_group Groups.get_group create_or_existing validated_group
  create_group as_second now body s =
      group_inserted as_second s (validated_group body.id body.description now)

  abbrev pub claimed_until :
      Text → Inner T → Result T ApiError → Result (Unit {0}) ApiError × Inner T
  claimed_until token_id s (err e) = (err e, s)
  claimed_until token_id s (ok expires_at) =
      let (done, s') = Credentials.claim_token_id token_id expires_at s in (claimed done, s')

  unfoldable pub claim_token_id :
      (ℤ → Option T) → ClaimTokenId → Inner T → Result (Unit {0}) ApiError × Inner T
  unfolding from_unix Credentials.claim_token_id
  claim_token_id from_second body s =
      if is_empty body.token_id
      then (err (ApiError.invalid (codes "token_id must not be empty")), s)
      else claimed_until body.token_id s
          (from_unix from_second (codes "expires_at") body.expires_at)
