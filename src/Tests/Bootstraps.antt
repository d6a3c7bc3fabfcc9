-- ===== src/Tests/Bootstraps.antt =====
-- Bootstrap files, at concrete values.
use lakefs_auth.Common.{map, ℕ, ◌≡◌, refl, true, Option, none, some, List, [], ◌∷◌}
use lakefs_auth.Std.Order.{Text, cmp_text}
use lakefs_auth.Std.Str.{codes}
use lakefs_auth.Std.Result.{Result, ok, err}
use lakefs_auth.Core.Model.{Effect}
use lakefs_auth.Core.Crypto.SecretBox.{SecretBox}
use lakefs_auth.Store.Types.{BootstrapPlan, BootstrapReport}
use lakefs_auth.Store.Mem.Inner.{default}
use lakefs_auth.Store.Mem.Invariant.Reach.{default-IsValid}
use lakefs_auth.Store.Bootstrap.Inner.{
  apply_bootstrap, insert_policy_if_missing, insert_group_if_missing, insert_user_if_missing,
  insert_membership_if_missing, insert_group_policy_if_missing, insert_credential_if_missing,
}
use lakefs_auth.Store.Bootstrap.Again.{none_created, apply_bootstrap-apply_bootstrap}
use lakefs_auth.Bootstrap.File.{BootstrapFile, is_blank_document}
use lakefs_auth.Bootstrap.Plan.{parse_plan_with_env, document}
use lakefs_auth.Bootstrap.Checked.{IsChecked, usernames}
use lakefs_auth.Bootstrap.Checked.Files.{IsListed, parse_plan_with_env-IsChecked}
use lakefs_auth.Core.Validate.{validate_policy, validate_action}
use lakefs_auth.Std.Utf8.{as_bytes}
use lakefs_auth.Std.BTreeMap.{get, insert}

abbrev file : BootstrapFile
file = record {
  version = some 1;
  policies =
      record {
        name = codes "ReadOnly";
        statement =
            record {
              effect = Effect.allow;
              resource = codes "*";
              action = codes "fs:Read*" ∷ [];
              condition = none;
            }
            ∷ [];
        acl = none;
      }
      ∷ [];
  groups =
      record { id = codes "Readers"; description = none; policies = codes "ReadOnly" ∷ [] } ∷ [];
  users =
      record {
        username = codes "bob";
        email = some (codes " ");
        friendly_name = none;
        source = none;
        external_id = none;
        groups = codes "Readers" ∷ [];
        policies = [];
        credentials =
            record {
              access_key_id = codes " AK";
              secret_access_key = none;
              secret_access_key_env = some (codes "BOB_SECRET");
            }
            ∷ [];
      }
      ∷ [];
}

abbrev from_yaml : Text → Result BootstrapFile Text
from_yaml yaml = ok file

abbrev no_list : Text → Result (List Text) Text
no_list text = err (codes "not a list")

abbrev plain_box : SecretBox
plain_box = record {
  encrypt = λ nonce plaintext. some plaintext;
  decrypt = λ nonce ciphertext. some ciphertext;
}

abbrev env : Text → Option Text
env variable = some (codes "s3")

abbrev plan : BootstrapPlan ℕ
plan = record {
  policies =
      record {
        name = codes "ReadOnly";
        creation_date = 5;
        statement =
            record {
              effect = Effect.allow;
              resource = codes "*";
              action = codes "fs:Read*" ∷ [];
              condition = none;
            }
            ∷ [];
        acl = none;
      }
      ∷ [];
  groups = record { id = codes "Readers"; description = none; creation_date = 5 } ∷ [];
  users =
      record {
        username = codes "bob";
        creation_date = 5;
        friendly_name = none;
        email = none;
        source = none;
        external_id = none;
        encrypted_password = none;
      }
      ∷ [];
  memberships = (codes "Readers", codes "bob") ∷ [];
  user_policies = [];
  group_policies = (codes "Readers", codes "ReadOnly") ∷ [];
  credentials =
      record {
        access_key_id = codes "AK";
        username = codes "bob";
        secret_ciphertext = 1 ∷ 7 ∷ codes "s3";
        creation_date = 5;
      }
      ∷ [];
}

parse_plan_with_env-IsChecked_example :
    (read : BootstrapFile) × (document from_yaml (codes "users:\n") ≡ ok read)
    × (usernames plan ≡ map (λ u. u.username) read.users)
    × IsChecked no_list plain_box env (IsListed read) [] [] plan
unfolding parse_plan_with_env validate_policy cmp_text validate_action as_bytes
parse_plan_with_env-IsChecked_example =
    parse_plan_with_env-IsChecked no_list plain_box env from_yaml (λ n. 7 ∷ []) 5 (codes "users:\n")
      plan refl

-- A file of blank lines and comments is an empty one.
comments_only : is_blank_document (codes "# none\r\n\n  # still none") ≡ true
unfolding is_blank_document
comments_only = refl

abbrev report : BootstrapReport
report = record {
  created = record {
    policies = 1;
    groups = 1;
    users = 1;
    memberships = 1;
    attachments = 1;
    credentials = 1;
  };
  skipped = none_created;
}

apply_bootstrap-apply_bootstrap_example :
    (again : BootstrapReport) × (apply_bootstrap plan (apply_bootstrap plan (default ℕ)).1
      ≡ (ok again, (apply_bootstrap plan (default ℕ)).1))
    × (again.created ≡ none_created)
unfolding apply_bootstrap insert_policy_if_missing get insert_group_if_missing
    insert_user_if_missing insert_membership_if_missing insert cmp_text
    insert_group_policy_if_missing insert_credential_if_missing
apply_bootstrap-apply_bootstrap_example =
    apply_bootstrap-apply_bootstrap plan (default ℕ) report (default-IsValid ℕ) refl
