-- ===== src/Core/Model.antt =====
-- crates/lakefs-auth-core/src/model: the wire models that the services read and write.
use lakefs_auth.Common.{ℕ, Bool, Option, List}
use lakefs_auth.Common.Int.{ℤ}
use lakefs_auth.Std.Order.{Text}
use lakefs_auth.Std.BTreeMap.{BTreeMap}

pub data Effect : Type 0 where
  allow deny : Effect

abbrev pub Condition : Type 0
Condition = BTreeMap Text (BTreeMap Text (List Text))

pub record Statement : Type 0 where
  pub effect : Effect
  pub resource : Text
  pub action : List Text
  pub condition : Option Condition

pub record Policy : Type 0 where
  pub name : Text
  pub creation_date : Option ℤ
  pub statement : List Statement
  pub acl : Option Text

pub record Group : Type 0 where
  pub id : Option Text
  pub name : Text
  pub description : Option Text
  pub creation_date : ℤ

pub record GroupCreation : Type 0 where
  pub id : Text
  pub description : Option Text

-- `Base64Bytes` is its bytes; base64 is a matter of the wire.
abbrev pub Bytes : Type 0
Bytes = List ℕ

pub record User : Type 0 where
  pub username : Text
  pub creation_date : ℤ
  pub friendly_name : Option Text
  pub email : Option Text
  pub source : Option Text
  pub encrypted_password : Option Bytes
  pub external_id : Option Text

pub record UserCreation : Type 0 where
  pub username : Text
  pub email : Option Text
  pub friendly_name : Option Text
  pub source : Option Text
  pub encrypted_password : Option Bytes
  pub external_id : Option Text
  pub invite : Option Bool

pub record ClaimTokenId : Type 0 where
  pub token_id : Text
  pub expires_at : ℤ

pub record Credentials : Type 0 where
  pub access_key_id : Text
  pub creation_date : ℤ

pub record CredentialsWithSecret : Type 0 where
  pub access_key_id : Text
  pub secret_access_key : Text
  pub creation_date : ℤ
  pub user_id : ℕ
  pub user_name : Option Text

pub record ExternalPrincipal : Type 0 where
  pub user_id : Text
  pub id : Text
