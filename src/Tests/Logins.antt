-- ===== src/Tests/Logins.antt =====
-- Logins, at concrete values.
use lakefs_auth.Common.{◌≡◌, refl, true, none, some, [], ◌∷◌}
use lakefs_auth.Common.Int.{pos}
use lakefs_auth.Std.Order.{Text, cmp_text}
use lakefs_auth.Std.Str.{codes, trim}
use lakefs_auth.Core.Error.{to_string}
use lakefs_auth.Core.Validate.{validate_entity_id}
use lakefs_auth.Std.Result.{ok, err}
use lakefs_auth.Core.Model.{User}
use lakefs_auth.Client.{ClientError}
use lakefs_auth.Client.Ensure.{
  EnsureUserSpec, EnsuredUser, find_user, creation_of, segment, add_group_membership, join_groups,
  create_user_with_groups, ensure_user,
}
use lakefs_auth.Client.Ensure.Calls
use lakefs_auth.Client.Ensure.Calls.{
  Server, logged, deletes, last_request, last_request-create_user_with_groups, deletes-ensure_user,
}

abbrev eve : User
eve = record {
  username = codes "eve";
  creation_date = pos 3;
  friendly_name = none;
  email = none;
  source = some (codes "oidc");
  encrypted_password = none;
  external_id = some (codes "x2");
}

abbrev login : EnsureUserSpec
login = record {
  external_id = codes "x2";
  username = codes "eve";
  email = none;
  friendly_name = none;
  source = codes "oidc";
  groups = codes "team" ∷ [];
}

-- A server that knows no user, makes users, and adds to groups or fails to.
abbrev willing : Server
willing = record {
  utf8_percent_encode = λ set text. text;
  listed = λ _. ok [];
  made = λ _. ok eve;
  done = λ _. ok tt;
}

abbrev failing : Server
failing = record {
  utf8_percent_encode = λ set text. text;
  listed = λ _. ok [];
  made = λ _. ok eve;
  done = λ _. err (ClientError.status 500 (codes "down"));
}

last_request-create_user_with_groups_example :
    ((path : Text)
      → segment (logged failing) (codes "eve") ≡ ok path
      → last_request (create_user_with_groups (logged failing) login []).1
        ≡ some (Calls.delete_user path))
    × ((refused : ClientError)
        → segment (logged failing) (codes "eve") ≡ err refused
        → (create_user_with_groups (logged failing) login []).1
          ≡ Calls.create_user (creation_of login none) ∷ [])
last_request-create_user_with_groups_example =
    last_request-create_user_with_groups failing login [] eve
      (ClientError.status 500 (codes "down")) refl
      (unfold create_user_with_groups join_groups add_group_membership segment validate_entity_id
          cmp_text in
        refl)

-- A name that is no path segment is not deleted again.
segment-dots :
    segment (logged failing) (codes "..")
    ≡ err (ClientError.invalid_id (codes "entity id must not be '.' or '..'"))
unfolding segment validate_entity_id to_string cmp_text
segment-dots = refl

abbrev ensured : EnsuredUser
ensured = record { user = eve; created = true }

deletes-ensure_user_example : deletes (ensure_user (logged willing) login []).1 ≡ 0
deletes-ensure_user_example = deletes-ensure_user willing login [] ensured (
    unfold ensure_user find_user create_user_with_groups join_groups add_group_membership segment
      validate_entity_id cmp_text trim in
    refl)
