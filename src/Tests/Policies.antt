-- ===== src/Tests/Policies.antt =====
-- Policies and access keys of the service layer, at concrete values.
use lakefs_auth.Common.{ℕ, ◌≡◌, refl, none, some, List, [], ◌∷◌, ◌++◌, drop, arith}
use lakefs_auth.Common.Int.{pos}
use lakefs_auth.Std.Order.{Text, cmp_text}
use lakefs_auth.Std.Str.{codes}
use lakefs_auth.Std.Reorder.{cons, nil, swap, trans}
use lakefs_auth.Std.Result.{Result, ok, err}
use lakefs_auth.Core.Model.{Statement, Policy, Effect, CredentialsWithSecret}
use lakefs_auth.Core.Crypto.SecretBox.{SecretBox, IsAead}
use lakefs_auth.Store.Types.{UserRecord}
use lakefs_auth.Store.Mem.Inner.{Inner, default}
use lakefs_auth.Service.PolicyRequests.{create_policy}
use lakefs_auth.Service.KeyRequests.{Entropy, create_credentials, credentials_with_secret, key_pair}
use lakefs_auth.Service.Reordering.Again.{create_policy-create_policy}
use lakefs_auth.Service.Secrets.{credentials_with_secret-create_credentials}
use lakefs_auth.Core.Validate.{validate_policy, validate_action}
use lakefs_auth.Std.BTreeMap.{get}

abbrev reader : List Text → Statement
reader action = record {
  effect = Effect.allow;
  resource = codes "*";
  action = action;
  condition = none;
}

abbrev denied : Statement
denied = record {
  effect = Effect.deny;
  resource = codes "*";
  action = codes "auth:*" ∷ [];
  condition = none;
}

abbrev read : Text
read = codes "fs:Read*"

abbrev list : Text
list = codes "fs:List*"

abbrev body : Policy
body = record {
  name = codes "ReadOnly";
  creation_date = none;
  statement = reader (read ∷ list ∷ []) ∷ denied ∷ [];
  acl = none;
}

abbrev other_order : List Statement
other_order = denied ∷ reader (list ∷ read ∷ []) ∷ []

abbrev no_list : Text → Result (List Text) Text
no_list text = err (codes "not a list")

abbrev join_all : List Text → Text
join_all [] = []
join_all (t ∷ ts) = t ++ (b',' ∷ join_all ts)

abbrev serialized : Statement → Text
serialized statement = statement.resource ++ join_all statement.action

abbrev answer : Policy
answer = record body { creation_date = some (pos 3) }

create_policy-create_policy_example :
    create_policy
      (λ z. some 3)
      no_list
      serialized
      pos
      4
      (record body { statement = other_order })
      (create_policy (λ z. some 3) no_list serialized pos 3 body (default ℕ)).1
    ≡ (ok answer, (create_policy (λ z. some 3) no_list serialized pos 3 body (default ℕ)).1)
unfolding create_policy validate_policy cmp_text validate_action get
create_policy-create_policy_example =
    create_policy-create_policy (λ z. some 3) no_list serialized pos 3 4 body other_order
      (default ℕ) answer
      (trans (cons (refl, refl, refl, swap) (cons (refl, refl, refl, cons refl nil) nil)) swap) refl

-- Sixteen zero bytes stand for the tag.
abbrev tag : List ℕ
tag = 0 ∷ 0 ∷ 0 ∷ 0 ∷ 0 ∷ 0 ∷ 0 ∷ 0 ∷ 0 ∷ 0 ∷ 0 ∷ 0 ∷ 0 ∷ 0 ∷ 0 ∷ 0 ∷ []

abbrev plain_box : SecretBox
plain_box = record {
  encrypt = λ nonce plaintext. some (tag ++ plaintext);
  decrypt = λ nonce ciphertext. some (drop 16 ciphertext);
}

plain_box-IsAead : IsAead plain_box
plain_box-IsAead = record {
  decrypt_encrypt = λ nonce plaintext ciphertext sized sealed. ground (arith, sealed);
  tagged = λ nonce plaintext ciphertext sealed. ground (arith, sealed);
}

abbrev alice_row : UserRecord ℕ
alice_row = record {
  username = codes "alice";
  user_id = 1;
  creation_date = 3;
  friendly_name = none;
  email = none;
  source = none;
  external_id = none;
  encrypted_password = none;
}

abbrev with_alice : Inner ℕ
with_alice = record (default ℕ) { users = (codes "alice", alice_row) ∷ []; next_user_id = 1 }

abbrev entropy : Entropy
entropy = record {
  draw = λ n. (0, omega arith);
  secret_bytes = [];
  nonce = 1 ∷ 2 ∷ 3 ∷ 4 ∷ 5 ∷ 6 ∷ 7 ∷ 8 ∷ 9 ∷ 10 ∷ 11 ∷ 12 ∷ [];
}

abbrev key : CredentialsWithSecret
key = record {
  access_key_id = codes "AK";
  secret_access_key = codes "s3";
  creation_date = pos 4;
  user_id = 1;
  user_name = some (codes "alice");
}

credentials_with_secret-create_credentials_example :
    ((codes "AK", codes "s3") ≡ key_pair (λ b. b) entropy (some (codes " AK")) (some (codes "s3 ")))
    × (credentials_with_secret pos plain_box
          (codes "AK")
          (create_credentials pos
            (λ b. b)
            plain_box
            entropy
            4
            (codes "alice")
            (some (codes " AK"))
            (some (codes "s3 "))
            with_alice).1
        ≡ ok key)
unfolding key_pair create_credentials get cmp_text
credentials_with_secret-create_credentials_example =
    credentials_with_secret-create_credentials pos plain_box plain_box-IsAead (λ b. b) entropy 4
      (codes "alice") (some (codes " AK")) (some (codes "s3 ")) with_alice key refl
      ((refl, (refl, tt))) refl
