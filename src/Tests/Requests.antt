-- ===== src/Tests/Requests.antt =====
-- Requests that are sent again, at concrete values.
use lakefs_auth.Common.{◌≡◌, refl, none, some, ℕ, Option, Bool, List, [], ◌∷◌, ltb}
use lakefs_auth.Common.Int.{ℤ, pos, negsuc}
use lakefs_auth.Std.Order.{cmp_text}
use lakefs_auth.Std.Str.{codes}
use lakefs_auth.Std.BTreeMap.{get, insert}
use lakefs_auth.Std.Result.{ok, err}
use lakefs_auth.Core.Error.{ApiError}
use lakefs_auth.Core.Model.{User, UserCreation, Group, GroupCreation, ClaimTokenId}
use lakefs_auth.Core.Text.{non_blank}
use lakefs_auth.Core.Validate.{validate_entity_id}
use lakefs_auth.Store.Types.{validated_user, validated_group, optional_text}
use lakefs_auth.Store.Mem.Inner.{default}
use lakefs_auth.Store.Mem.Users
use lakefs_auth.Store.Mem.Groups
use lakefs_auth.Store.Mem.Calls
use lakefs_auth.Store.Mem.Credentials
use lakefs_auth.Service.Repeats.Claims.{claim_token_id-claim_token_id_refused}
use lakefs_auth.Service.{create_user, create_group, claim_token_id, create_or_existing, from_unix}
use lakefs_auth.Service.Repeats.{create_group-create_group, create_user-create_user}

abbrev bob : UserCreation
bob = record {
  username = codes "bob";
  email = none;
  friendly_name = none;
  source = some (codes "oidc");
  encrypted_password = none;
  external_id = some (codes "x1");
  invite = none;
}

abbrev bob_user : User
bob_user = record {
  username = codes "bob";
  creation_date = pos 3;
  friendly_name = none;
  email = none;
  source = some (codes "oidc");
  encrypted_password = none;
  external_id = some (codes "x1");
}

create_user-create_user_example :
    create_user pos 4 bob (create_user pos 3 bob (default ℕ)).1
    ≡ (ok bob_user, (create_user pos 3 bob (default ℕ)).1)
create_user-create_user_example = create_user-create_user pos 3 4 bob (default ℕ) bob_user (
    unfold create_user validated_user optional_text non_blank validate_entity_id Users.create_user
      create_or_existing get insert cmp_text in
    refl)

abbrev admins : GroupCreation
admins = record { id = codes "admins"; description = none }

abbrev admins_group : Group
admins_group = record {
  id = some (codes "admins");
  name = codes "admins";
  description = none;
  creation_date = pos 3;
}

create_group-create_group_example :
    create_group pos 4 admins (create_group pos 3 admins (default ℕ)).1
    ≡ (ok admins_group, (create_group pos 3 admins (default ℕ)).1)
create_group-create_group_example =
    create_group-create_group pos 3 4 admins (default ℕ) admins_group (
      unfold create_group validated_group validate_entity_id Groups.create_group create_or_existing
        get insert cmp_text in
      refl)

-- A clock that starts in 1970.
abbrev from_second : ℤ → Option ℕ
from_second (pos n) = some n
from_second (negsuc n) = none

abbrev token : ClaimTokenId
token = record { token_id = codes "jti"; expires_at = pos 9 }

-- The same id with another expiry.
abbrev later_token : ClaimTokenId
later_token = record { token_id = codes "jti"; expires_at = pos 12 }

abbrev later : ℕ → ℕ → Bool
later a b = ltb b a

-- Another claim, and a cleanup before the first one expires.
abbrev between : List (Calls.Call ℕ)
between = Calls.claim_token_id (codes "other") 3 ∷ Calls.delete_expired_token_ids 5 ∷ []

claim_token_id-claim_token_id_refused_example :
    let after = Calls.run_all later between (claim_token_id from_second token (default ℕ)).1 in
    claim_token_id from_second later_token after
    ≡ (err (ApiError.invalid (codes "token id was already claimed")), after)
unfolding from_unix
claim_token_id-claim_token_id_refused_example =
    claim_token_id-claim_token_id_refused later from_second token later_token 9 12 between
      (default ℕ) (unfold claim_token_id from_unix Credentials.claim_token_id get insert in refl)
      refl (tt, (refl, tt)) refl refl
