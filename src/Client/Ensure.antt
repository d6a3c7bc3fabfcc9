-- ===== src/Client/Ensure.antt =====
-- crates/lakefs-authz-client/src/lib.rs: `ensure_user`, which creates the user of a login. The state
-- of type `W` is what the server keeps; a request changes it and answers. The program's log lines
-- are left out.
pub mod Calls
pub mod Creations
use lakefs_auth.Common.{
  ℕ, Bool, true, false, not, Option, none, some, String, List, [], ◌∷◌, is_empty, if◌then◌else◌,
}
use lakefs_auth.Std.Order.{Text, text_ord, ◌==◌}
use lakefs_auth.Std.Str.{codes, trim}
use lakefs_auth.Std.Result.{Result, ok, err}
use lakefs_auth.Core.Error.{ApiError, to_string}
use lakefs_auth.Core.Text.{path_segment}
use lakefs_auth.Core.Validate.{validate_entity_id}
use lakefs_auth.Core.Model.{User, UserCreation}
use lakefs_auth.Store.Types.{eq_option}
use lakefs_auth.Client.{ClientError}

abbrev pub Ask : Type 0 → Type 0 → Type 0
Ask W A = W → Result A ClientError × W

-- The requests that `ensure_user` makes, with the segments of their paths, and the encoding of those.
-- `list_users filter value` gives the first two results.
pub record Api (W : Type 0) : Type 0 where
  pub utf8_percent_encode : (ℕ → Bool) → Text → Text
  pub list_users : String → Text → Ask W (List User)
  pub create_user : UserCreation → Ask W User
  pub delete_user : Text → Ask W (Unit {0})
  pub add_group_membership : Text → Text → Ask W (Unit {0})

pub record EnsureUserSpec : Type 0 where
  pub external_id : Text
  pub username : Text
  pub email : Option Text
  pub friendly_name : Option Text
  pub source : Text
  pub groups : List Text

pub record EnsuredUser : Type 0 where
  pub user : User
  pub created : Bool

infixl 5 ◌>>=◌
abbrev pub continue :
    {A B W : Type 0} → (A → Ask W B) → Result A ClientError × W → Result B ClientError × W
continue f (err e, w) = (err e, w)
continue f (ok a, w) = f a w

abbrev pub ◌>>=◌ : {A B W : Type 0} → Ask W A → (A → Ask W B) → Ask W B
◌>>=◌ m f w = continue f (m w)

abbrev pub pure : {A W : Type 0} → A → Ask W A
pure a w = (ok a, w)

abbrev pub fail : {A W : Type 0} → ClientError → Ask W A
fail e w = (err e, w)

-- `(results.next(), results.next())`
abbrev pub only_result : {W : Type 0} → List User → Ask W (Option User)
only_result [] = pure none
only_result (user ∷ []) = pure (some user)
only_result (user ∷ other ∷ more) = fail ClientError.non_unique

-- `creation`, and the same without the email
abbrev pub creation_of : EnsureUserSpec → Option Text → UserCreation
creation_of spec email = record {
  username = spec.username;
  email = email;
  friendly_name = spec.friendly_name;
  source = some spec.source;
  encrypted_password = none;
  external_id = some spec.external_id;
  invite = none;
}

-- What a membership that was not added means: it is there, its group is not, or the create failed.
abbrev pub is_tolerated : ClientError → Bool
is_tolerated ClientError.already_exists = true
is_tolerated ClientError.not_found = true
is_tolerated _ = false

abbrev pub is_conflict : ClientError → Bool
is_conflict ClientError.already_exists = true
is_conflict _ = false

abbrev pub other_identity : Text → Option User → Option User
other_identity external_id none = none
other_identity external_id (some user) =
    if eq_option user.external_id (some external_id) then none else some user

module _ {W : Type 0} (api : Api W) where
  unfoldable pub find_user : String → Text → Ask W (Option User)
  find_user filter value =
      if is_empty (trim value)
      then pure none
      else (do results ← api.list_users filter value; only_result results)

  unfoldable pub email_holder : EnsureUserSpec → Ask W (Option User)
  unfolding find_user
  email_holder spec = elim spec.email [
    | none ↦ pure none
    | some email ↦ (do
      holder ← find_user "email" email
      pure (other_identity spec.external_id holder))
  ]

  abbrev pub encoded : Text → Result (Unit {0}) ApiError → Result Text ClientError
  encoded value (err e) = err (ClientError.invalid_id (to_string e))
  encoded value (ok u) = ok (path_segment api.utf8_percent_encode value)

  -- What the server would refuse never leaves the client.
  unfoldable pub segment : Text → Result Text ClientError
  unfolding validate_entity_id to_string
  segment value = encoded value (validate_entity_id "entity" value)

  abbrev pub with_segment : {A : Type 0} → (Text → Ask W A) → Result Text ClientError → Ask W A
  with_segment send (err e) w = (err e, w)
  with_segment send (ok path) w = send path w

  unfoldable pub delete_user : Text → Ask W (Unit {0})
  unfolding segment
  delete_user username = with_segment api.delete_user (segment username)

  unfoldable pub add_group_membership : Text → Text → Ask W (Unit {0})
  unfolding segment
  add_group_membership group username =
      with_segment
        (λ group_path. with_segment (api.add_group_membership group_path) (segment username))
        (segment group)

  -- `put path name` is the request for the segment of a path.
  unfoldable pub update_friendly_name :
      (Text → Text → Ask W (Unit {0})) → Text → Text → Ask W (Unit {0})
  unfolding segment
  update_friendly_name put username name = with_segment (λ path. put path name) (segment username)

  -- Whatever the delete answers, the caller goes on.
  unfoldable pub roll_back_create : Text → W → W
  unfolding delete_user
  roll_back_create username w = (delete_user username w).1

  -- One round of the loop over the groups, and the loop.
  abbrev pub joined :
      Text
      → (W → Result (Unit {0}) ClientError × W)
      → Result (Unit {0}) ClientError × W
      → Result (Unit {0}) ClientError × W
  joined username rest (ok u, w) = rest w
  joined username rest (err e, w) =
      if is_tolerated e then rest w else (err e, roll_back_create username w)

  unfoldable pub join_groups : Text → List Text → Ask W (Unit {0})
  unfolding roll_back_create add_group_membership
  join_groups username [] w = (ok tt, w)
  join_groups username (group ∷ groups) w =
      joined username (join_groups username groups) (add_group_membership group username w)

  -- The create of a user with its groups, once the user is there.
  abbrev pub with_groups : EnsureUserSpec → User → Ask W EnsuredUser
  with_groups spec user = do
    _ ← join_groups user.username spec.groups
    pure (record { user = user; created = true })

  -- The 409: another login won, the email is taken, or the username is.
  unfoldable pub after_conflict : EnsureUserSpec → Ask W EnsuredUser
  unfolding find_user email_holder join_groups
  after_conflict spec = do
    winner ← find_user "external_id" spec.external_id
    elim winner [
      | some user ↦ pure (record { user = user; created = false })
      | none ↦ (do
        holder ← email_holder spec
        elim holder [
          | none ↦ fail ClientError.already_exists
          | some other ↦ (do user ← api.create_user (creation_of spec none); with_groups spec user)
        ])
    ]

  abbrev pub after_create :
      EnsureUserSpec → Result User ClientError × W → Result EnsuredUser ClientError × W
  after_create spec (ok user, w) = with_groups spec user w
  after_create spec (err e, w) = if is_conflict e then after_conflict spec w else (err e, w)

  unfoldable pub create_user_with_groups : EnsureUserSpec → Ask W EnsuredUser
  unfolding after_conflict join_groups
  create_user_with_groups spec w =
      after_create spec (api.create_user (creation_of spec spec.email) w)

  unfoldable pub ensure_user : EnsureUserSpec → Ask W EnsuredUser
  unfolding find_user create_user_with_groups
  ensure_user spec = do
    found ← find_user "external_id" spec.external_id
    elim found [
      | some user ↦ pure (record { user = user; created = false })
      | none ↦ create_user_with_groups spec
    ]
