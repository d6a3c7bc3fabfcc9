-- ===== src/Bootstrap/File.antt =====
-- crates/lakefs-authz/src/bootstrap.rs: what a bootstrap file holds. The environment is a parameter, and
-- an `anyhow::Error` is carried by its text.
use lakefs_auth.Common.{
  ℕ, Bool, not, ◌||◌, Option, none, some, List, [], ◌∷◌, ◌++◌, length, map, all, is_empty,
  if◌then◌else◌,
}
use lakefs_auth.Common
use lakefs_auth.Common.Int.{pos}
use lakefs_auth.Std.Order.{Text}
use lakefs_auth.Std.Str.{codes, decimal, lines, trim, starts_with}
use lakefs_auth.Std.Result.{Result, ok, err, ok_or}
use lakefs_auth.Core.Model.{Statement}

abbrev pub bootstrap_version : ℕ
bootstrap_version = 1

pub record PolicySpec : Type 0 where
  pub name : Text
  pub statement : List Statement
  pub acl : Option Text

pub record GroupSpec : Type 0 where
  pub id : Text
  pub description : Option Text
  pub policies : List Text

pub record CredentialSpec : Type 0 where
  pub access_key_id : Text
  pub secret_access_key : Option Text
  pub secret_access_key_env : Option Text

pub record UserSpec : Type 0 where
  pub username : Text
  pub email : Option Text
  pub friendly_name : Option Text
  pub source : Option Text
  pub external_id : Option Text
  pub groups : List Text
  pub policies : List Text
  pub credentials : List CredentialSpec

pub record BootstrapFile : Type 0 where
  pub version : Option ℕ
  pub policies : List PolicySpec
  pub groups : List GroupSpec
  pub users : List UserSpec

-- `BootstrapFile::default()`
abbrev pub empty_file : BootstrapFile
empty_file = record { version = none; policies = []; groups = []; users = [] }

abbrev pub about : Text → Text → Text
about access_key_id message = codes "credential " ++ (access_key_id ++ (codes ": " ++ message))

-- `match (&self.secret_access_key, &self.secret_access_key_env)`
unfoldable pub secret_from :
    (Text → Option Text) → Text → Option Text → Option Text → Result Text Text
secret_from env key (some literal) (some variable) =
    err (about key (codes "set secret_access_key or secret_access_key_env, not both"))
secret_from env key (some literal) none = ok literal
secret_from env key none (some variable) =
    ok_or (about key (codes "environment variable " ++ (variable ++ codes " is not set")))
      (env variable)
secret_from env key none none = err (
    about key (
      codes
        "set secret_access_key or secret_access_key_env; a generated secret could never be read back"))

unfoldable pub resolve_secret : (Text → Option Text) → CredentialSpec → Result Text Text
unfolding secret_from
resolve_secret env spec =
    secret_from env spec.access_key_id spec.secret_access_key spec.secret_access_key_env

unfoldable pub is_blank_document : Text → Bool
unfolding lines trim starts_with
is_blank_document yaml =
    all (λ line. is_empty line || starts_with line (codes "#")) (map trim (lines yaml))

abbrev pub check_version : Option ℕ → Result (Unit {0}) Text
check_version none = ok tt
check_version (some version) =
    if not (Common.◌==◌ version bootstrap_version)
    then err (
        codes "unsupported bootstrap file version "
        ++ (decimal (pos version) ++ (codes ", expected " ++ decimal (pos bootstrap_version))))
    else ok tt
