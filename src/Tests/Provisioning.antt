-- ===== src/Tests/Provisioning.antt =====
-- Claims and new users, at concrete values.
use lakefs_auth.Common.{◌≡◌, refl, true, false, none, some, List, [], ◌∷◌, All}
use lakefs_auth.Common.Int.{pos}
use lakefs_auth.Std.Order.{Text, text_ord, cmp_text}
use lakefs_auth.Std.BTreeMap.{get}
use lakefs_auth.Std.Sort.{IsIncreasing, dedup, sort}
use lakefs_auth.Std.Str.{codes, ascii_lower, trim}
use lakefs_auth.Std.Result.{ok}
use lakefs_auth.Client.Ensure.Creations.{creations}
use lakefs_auth.Client.Ensure.Calls.{Server, logged}
use lakefs_auth.Core.Model.{User}
use lakefs_auth.Authn.Claims.{
  Claims, Value, string, bool, array, item, end, list, values, deserialize_groups, first_claim,
  claim_text,
}
use lakefs_auth.Authn.Provision.{ProvisionSettings, resolve_groups, derive_username, ensure_user}
use lakefs_auth.Authn.Provision.Groups.{IsMapped, IsJoined, resolve_groups-IsMapped}
use lakefs_auth.Authn.Provision.Usernames.{IsUsername, IsDerived, derive_username-IsUsername}
use lakefs_auth.Authn.Provision.Requests.{IsSound, renaming, ensure_user-IsSound}
use lakefs_auth.Core.Text.{non_blank}
use lakefs_auth.Client.Ensure.{find_user, create_user_with_groups}

-- What stands for compact JSON.
abbrev json : Value → Text
json value = codes "{}"

abbrev claims : Claims
claims =
    (codes "email", string (codes "eve@example.com"))
    ∷ (codes "email_verified", bool false)
    ∷ (
      codes "groups",
      array (item (string (codes "b")) (item (string (codes "a")) (item (string (codes "c")) end))),
    )
    ∷ (codes "sub", string (codes " x1 "))
    ∷ []

abbrev settings : ProvisionSettings
settings = record {
  username_claims = codes "email" ∷ codes "sub" ∷ [];
  friendly_name_claim = codes "name";
  persist_friendly_name = true;
  initial_groups = codes "Readers" ∷ [];
  groups_claim = some (codes "groups");
  group_map = (codes "a", codes "Team") ∷ (codes "b", codes "Admins") ∷ [];
  group_map_strict = true;
  source = codes "oidc";
  auto_provision = true;
}

abbrev eve : User
eve = record {
  username = codes "x1";
  creation_date = pos 3;
  friendly_name = none;
  email = none;
  source = some (codes "oidc");
  encrypted_password = none;
  external_id = some (codes " x1 ");
}

abbrev willing : Server
willing = record {
  utf8_percent_encode = λ set text. text;
  listed = λ _. ok [];
  made = λ _. ok eve;
  done = λ _. ok tt;
}

resolve_groups-mapped : resolve_groups settings claims ≡ codes "Admins" ∷ codes "Team" ∷ []
unfolding resolve_groups get cmp_text deserialize_groups dedup sort values non_blank
resolve_groups-mapped = refl

-- The unverified email does not name the user.
derive_username-sub : derive_username json settings claims ≡ ok (codes "x1")
unfolding derive_username first_claim get cmp_text ascii_lower trim
derive_username-sub = refl

ensure_user-made :
    (ensure_user json (logged willing) (renaming willing) settings claims []).0
    ≡ ok (record { user = eve; created = true })
unfolding ensure_user claim_text get cmp_text trim find_user first_claim ascii_lower
    create_user_with_groups deserialize_groups dedup sort values non_blank
ensure_user-made = refl

ensure_user-IsSound_example :
    All
      (IsSound json settings claims)
      (creations (ensure_user json (logged willing) (renaming willing) settings claims []).1)
ensure_user-IsSound_example = ensure_user-IsSound json settings claims willing

derive_username-IsUsername_example :
    IsUsername (codes "x1") × IsDerived json settings claims (codes "x1")
unfolding first_claim get cmp_text ascii_lower trim
derive_username-IsUsername_example =
    derive_username-IsUsername json settings claims (codes "x1") (unfold derive_username in refl)

abbrev names : List Text
names = codes "b" ∷ codes "a" ∷ codes "c" ∷ []

resolve_groups-IsMapped_example :
    All (IsMapped settings names) (resolve_groups settings claims)
    × All (λ x. IsJoined (resolve_groups settings claims) (get x settings.group_map)) names
    × IsIncreasing (resolve_groups settings claims)
unfolding values cmp_text deserialize_groups non_blank
resolve_groups-IsMapped_example =
    resolve_groups-IsMapped settings claims (codes "groups") (list names) refl (unfold get in refl)
      refl
