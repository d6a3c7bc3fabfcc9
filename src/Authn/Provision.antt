-- ===== src/Authn/Provision.antt =====
-- crates/lakefs-authn/src/provision.rs: verified claims become a user of the authorization API. The
-- state `W` is what the API server keeps. The create runs in a task of its own, which is taken to
-- finish, so `TaskFailed` does not arise; log lines are left out.
pub mod Groups
pub mod Usernames
pub mod Requests
use lakefs_auth.Common.{
  ℕ, Bool, true, false, not, ◌&&◌, Option, none, some, List, [], ◌∷◌, ◌++◌, filter, any, is_empty,
  if◌then◌else◌,
}
use lakefs_auth.Std.Order.{Text, text_ord, ◌==◌}
use lakefs_auth.Std.BTreeMap.{BTreeMap, get}
use lakefs_auth.Std.Str.{codes, trim, join, eq_ignore_ascii_case, is_whitespace}
use lakefs_auth.Std.Sort.{sort, dedup}
use lakefs_auth.Std.Result.{Result, ok, err, ok_or, map_err, ◌>>=◌, ◌>>◌}
use lakefs_auth.Core.Error.{ApiError, to_string}
use lakefs_auth.Core.Error
use lakefs_auth.Core.Model.{User}
use lakefs_auth.Core.Validate.{validate_entity_id}
use lakefs_auth.Store.Types.{eq_option}
use lakefs_auth.Client.{ClientError}
use lakefs_auth.Client.Ensure.{
  update_friendly_name, Api, Ask, EnsureUserSpec, EnsuredUser, find_user, create_user_with_groups,
  is_conflict,
}
use lakefs_auth.Authn.Claims.{
  Claims, Value, GroupsClaim, claim_text, first_claim, flattened, flatten_value, deserialize_groups,
  values,
}

pub data ProvisionError : Type 0 where
  missing_subject : ProvisionError
  no_username_claim : Text → ProvisionError
  invalid_username : Text → Text → ProvisionError
  username_collision unknown_identity : ProvisionError
  authz : ClientError → ProvisionError
  task_failed : Text → ProvisionError

pub record ProvisionSettings : Type 0 where
  pub username_claims : List Text
  pub friendly_name_claim : Text
  pub persist_friendly_name : Bool
  pub initial_groups : List Text
  pub groups_claim : Option Text
  pub group_map : BTreeMap Text Text
  pub group_map_strict : Bool
  pub source : Text
  pub auto_provision : Bool

unfoldable pub validate_username : Text → Result (Unit {0}) ProvisionError
unfolding validate_entity_id is_whitespace to_string
validate_username username = do
  map_err (λ e. invalid_username username (to_string e)) (validate_entity_id "user" username)
  if any is_whitespace username
      then err (invalid_username username (codes "it contains whitespace"))
      else ok tt

-- One round of the loop over the groups of the claim.
abbrev pub mapped : ProvisionSettings → Text → Option Text → List Text → List Text
mapped settings group (some name) groups = name ∷ groups
mapped settings group none groups = if settings.group_map_strict then groups else group ∷ groups

unfoldable pub map_groups : ProvisionSettings → List Text → List Text
map_groups settings [] = []
map_groups settings (group ∷ groups) =
    mapped settings group (get group settings.group_map) (map_groups settings groups)

-- What follows the loop.
abbrev pub or_initial : ProvisionSettings → List Text → List Text
or_initial settings groups =
    if is_empty groups
    then (if settings.group_map_strict then groups else settings.initial_groups)
    else groups

abbrev pub groups_from : ProvisionSettings → Option GroupsClaim → List Text
groups_from settings none = settings.initial_groups
groups_from settings (some parsed) =
    or_initial settings (dedup (sort (map_groups settings (values parsed))))

-- The claim's value, where it is a list of strings or a string.
abbrev pub parsed_groups : Option Value → Option GroupsClaim
parsed_groups none = none
parsed_groups (some raw) = deserialize_groups raw

unfoldable pub resolve_groups : ProvisionSettings → Claims → List Text
unfolding map_groups
resolve_groups settings claims = elim settings.groups_claim [
  | none ↦ settings.initial_groups
  | some name ↦ groups_from settings (parsed_groups (get name claims))
]

abbrev pub is_false : Option Text → Bool
is_false none = false
is_false (some value) = eq_ignore_ascii_case value (codes "false")

module _ (to_json : Value → Text) where
  unfoldable pub email_is_unverified : Claims → Bool
  email_is_unverified claims = is_false (flattened to_json (get (codes "email_verified") claims))

  unfoldable pub verified_email : Claims → Option Text
  unfolding email_is_unverified
  verified_email claims =
      if email_is_unverified claims then none else claim_text to_json claims (codes "email")

  -- The username claims that are tried.
  unfoldable pub candidates : ProvisionSettings → Claims → List Text
  unfolding email_is_unverified
  candidates settings claims =
      filter (λ name. not (email_is_unverified claims && (name == codes "email")))
        settings.username_claims

  unfoldable pub derive_username : ProvisionSettings → Claims → Result Text ProvisionError
  unfolding candidates validate_username
  derive_username settings claims = do
    (claim, value) ←
        ok_or (no_username_claim (join (codes ", ") settings.username_claims))
          (first_claim to_json claims (candidates settings claims))
    validate_username (trim value)
    ok (trim value)

  abbrev pub kept_name : ProvisionSettings → Option Text → Option Text
  kept_name settings none = none
  kept_name settings (some name) = if settings.persist_friendly_name then some name else none

  unfoldable pub spec_of : ProvisionSettings → Claims → Text → Text → EnsureUserSpec
  unfolding verified_email resolve_groups
  spec_of settings claims subject username = record {
    external_id = subject;
    username = username;
    email = verified_email claims;
    friendly_name = kept_name settings (claim_text to_json claims settings.friendly_name_claim);
    source = settings.source;
    groups = resolve_groups settings claims;
  }

  module _ {W : Type 0} (api : Api W) (put_friendly_name : Text → Text → Ask W (Unit {0})) where
    -- A rename that fails is only logged.
    abbrev pub renamed : ProvisionSettings → User → Option Text → W → W
    renamed settings user none w = w
    renamed settings user (some name) w =
        if settings.persist_friendly_name && not (eq_option user.friendly_name (some name))
        then (update_friendly_name api put_friendly_name user.username name w).1
        else w

    abbrev pub created : Result EnsuredUser ClientError × W → Result EnsuredUser ProvisionError × W
    created (ok ensured, w) = (ok ensured, w)
    created (err e, w) = (err (if is_conflict e then username_collision else authz e), w)

    -- The create of an identity that is not known.
    abbrev pub provision :
        ProvisionSettings
        → Claims
        → Text
        → Result Text ProvisionError
        → W
        → Result EnsuredUser ProvisionError × W
    provision settings claims subject (err e) w = (err e, w)
    provision settings claims subject (ok username) w =
        created (create_user_with_groups api (spec_of settings claims subject username) w)

    abbrev pub after_lookup :
        ProvisionSettings
        → Claims
        → Text
        → Result (Option User) ClientError × W
        → Result EnsuredUser ProvisionError × W
    after_lookup settings claims subject (err e, w) = (err (authz e), w)
    after_lookup settings claims subject (ok (some user), w) = (
      ok (record { user = user; created = false }),
      renamed settings user (claim_text to_json claims settings.friendly_name_claim) w,
    )
    after_lookup settings claims subject (ok none, w) =
        if settings.auto_provision
        then provision settings claims subject (derive_username settings claims) w
        else (err unknown_identity, w)

    abbrev pub with_subject :
        ProvisionSettings → Claims → Option Text → W → Result EnsuredUser ProvisionError × W
    with_subject settings claims none w = (err missing_subject, w)
    with_subject settings claims (some subject) w =
        after_lookup settings claims subject (find_user api "external_id" subject w)

    unfoldable pub ensure_user :
        ProvisionSettings → Claims → W → Result EnsuredUser ProvisionError × W
    unfolding spec_of derive_username
    ensure_user settings claims w =
        with_subject settings claims (claim_text to_json claims (codes "sub")) w
