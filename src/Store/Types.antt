-- ===== src/Store/Types.antt =====
-- crates/lakefs-authz/src/store/types.rs: what the store reads and writes. `T` stands for jiff's
-- `Timestamp`.
use lakefs_auth.Common.{
  ◌≡◌, refl, arith, ℕ, Bool, true, false, ◌&&◌, Option, none, some, List, is_empty,
}
use lakefs_auth.Std.Order.{Text, text_ord, ◌==◌}
use lakefs_auth.Std.Result.{Result, ok, ◌>>=◌, ◌>>◌}
use lakefs_auth.Core.Error.{ApiError}
use lakefs_auth.Core.Model.{Statement, Bytes}
use lakefs_auth.Core.Text.{non_blank}
use lakefs_auth.Core.Crypto.SecretBox.{SecretBox, CryptoError, seal_str}
use lakefs_auth.Core.Validate.{validate_entity_id, validate_policy}

infixl 5 ◌and_then◌
abbrev pub ◌and_then◌ {ℓ κ} : {A : Type ℓ} {B : Type κ} → Option A → (A → Option B) → Option B
none and_then f = none
some a and_then f = f a

unfoldable pub optional_text : Option Text → Option Text
optional_text value = value and_then non_blank

-- `Option<String>: PartialEq`
abbrev pub eq_option : Option Text → Option Text → Bool
eq_option none none = true
eq_option (some s) (some t) = s == t
eq_option _ _ = false

pub eq_option_self : (o : Option Text) → eq_option o o ≡ true
eq_option_self none = refl
eq_option_self (some s) = ground (arith, text_ord.cmp_self s)

pub record UserRecord (T : Type 0) : Type 0 where
  pub username : Text
  pub user_id : ℕ
  pub creation_date : T
  pub friendly_name : Option Text
  pub email : Option Text
  pub source : Option Text
  pub external_id : Option Text
  pub encrypted_password : Option Bytes

pub record NewUser (T : Type 0) : Type 0 where
  pub username : Text
  pub creation_date : T
  pub friendly_name : Option Text
  pub email : Option Text
  pub source : Option Text
  pub external_id : Option Text
  pub encrypted_password : Option Bytes

pub record UserFields : Type 0 where
  pub friendly_name : Option Text
  pub email : Option Text
  pub source : Option Text
  pub external_id : Option Text
  pub encrypted_password : Option Bytes

pub record GroupRecord (T : Type 0) : Type 0 where
  pub id : Text
  pub description : Option Text
  pub creation_date : T

pub record NewGroup (T : Type 0) : Type 0 where
  pub id : Text
  pub description : Option Text
  pub creation_date : T

pub record PolicyRecord (T : Type 0) : Type 0 where
  pub name : Text
  pub creation_date : T
  pub statement : List Statement
  pub acl : Option Text

pub record NewPolicy (T : Type 0) : Type 0 where
  pub name : Text
  pub creation_date : T
  pub statement : List Statement
  pub acl : Option Text

pub record CredentialRecord (T : Type 0) : Type 0 where
  pub access_key_id : Text
  pub username : Text
  pub user_id : ℕ
  pub secret_ciphertext : Bytes
  pub creation_date : T

pub record NewCredential (T : Type 0) : Type 0 where
  pub access_key_id : Text
  pub username : Text
  pub secret_ciphertext : Bytes
  pub creation_date : T

pub record ExternalPrincipalRecord : Type 0 where
  pub id : Text
  pub username : Text

pub record BootstrapPlan (T : Type 0) : Type 0 where
  pub policies : List (NewPolicy T)
  pub groups : List (NewGroup T)
  pub users : List (NewUser T)
  pub memberships : List (Text × Text)
  pub user_policies : List (Text × Text)
  pub group_policies : List (Text × Text)
  pub credentials : List (NewCredential T)

pub record BootstrapCounts : Type 0 where
  pub policies : ℕ
  pub groups : ℕ
  pub users : ℕ
  pub memberships : ℕ
  pub attachments : ℕ
  pub credentials : ℕ

pub record BootstrapReport : Type 0 where
  pub created : BootstrapCounts
  pub skipped : BootstrapCounts

module _ {T : Type 0} where
  -- `NewUser::validated`
  unfoldable pub validated_user : Text → UserFields → T → Result (NewUser T) ApiError
  unfolding optional_text validate_entity_id
  validated_user username fields creation_date = do
    validate_entity_id "user" username
    ok (record {
      username = username;
      creation_date = creation_date;
      friendly_name = optional_text fields.friendly_name;
      email = optional_text fields.email;
      source = optional_text fields.source;
      external_id = optional_text fields.external_id;
      encrypted_password = fields.encrypted_password;
    })

  unfoldable pub same_identity_as : NewUser T → UserRecord T → Bool
  same_identity_as user existing = eq_option user.external_id existing.external_id

  -- `NewGroup::validated`
  unfoldable pub validated_group : Text → Option Text → T → Result (NewGroup T) ApiError
  unfolding validate_entity_id
  validated_group id description creation_date = do
    validate_entity_id "group" id
    ok (record { id = id; description = description; creation_date = creation_date })

  -- `NewPolicy::validated`
  unfoldable pub validated_policy :
      (Text → Result (List Text) Text)
      → Text
      → List Statement
      → Option Text
      → T
      → Result (NewPolicy T) ApiError
  validated_policy from_str name statement acl creation_date = do
    validate_policy from_str name statement
    ok (record { name = name; creation_date = creation_date; statement = statement; acl = acl })

  -- `NewCredential::sealed`: a key without the lakeFS shape is only logged about.
  unfoldable pub sealed :
      Text → Text → Text → SecretBox → List ℕ → T → Result (NewCredential T) CryptoError
  unfolding seal_str
  sealed username access_key_id secret_access_key secrets nonce creation_date = do
    secret_ciphertext ← seal_str secrets nonce secret_access_key
    ok (record {
      access_key_id = access_key_id;
      username = username;
      secret_ciphertext = secret_ciphertext;
      creation_date = creation_date;
    })

  -- `BootstrapPlan::is_empty`
  unfoldable pub plan_is_empty : BootstrapPlan T → Bool
  plan_is_empty plan =
      is_empty plan.policies
      && is_empty plan.groups
      && is_empty plan.users
      && is_empty plan.memberships
      && is_empty plan.user_policies
      && is_empty plan.group_policies
      && is_empty plan.credentials
