-- ===== src/Store/Mem/Inner.antt =====
-- `Inner` of store/mem.rs: the tables, the inserts, and the cascades.
use lakefs_auth.Common.{
  ℕ, ◌+◌, Bool, not, Option, none, some, String, List, [], any, filter_map, if◌then◌else◌,
}
use lakefs_auth.Std.Order.{Text, text_ord, pair_ord, ◌==◌}
use lakefs_auth.Std.BTreeMap.{BTreeMap, BTreeSet, get, contains_key, insert, retain, values}
use lakefs_auth.Std.Result.{ok, err, ◌>>=◌, ◌>>◌, ok_or}
use lakefs_auth.Store.Error.{StoreResult, not_found, already_exists}
use lakefs_auth.Store.Types.{
  UserRecord, NewUser, GroupRecord, NewGroup, PolicyRecord, NewPolicy, CredentialRecord,
  NewCredential, ExternalPrincipalRecord, eq_option,
}
use mathlib.Core.Option

pub record Inner (T : Type 0) : Type 0 where
  pub users : BTreeMap Text (UserRecord T)
  pub next_user_id : ℕ
  pub groups : BTreeMap Text (GroupRecord T)
  pub policies : BTreeMap Text (PolicyRecord T)
  pub group_members : BTreeSet (Text × Text)
  pub user_policies : BTreeSet (Text × Text)
  pub group_policies : BTreeSet (Text × Text)
  pub credentials : BTreeMap Text (CredentialRecord T)
  pub external_principals : BTreeMap Text ExternalPrincipalRecord
  pub claimed_token_ids : BTreeMap Text T

-- `Inner::default()`
abbrev pub default : (T : Type 0) → Inner T
default T = record {
  users = [];
  next_user_id = 0;
  groups = [];
  policies = [];
  group_members = [];
  user_policies = [];
  group_policies = [];
  credentials = [];
  external_principals = [];
  claimed_token_ids = [];
}

unfoldable pub require : Bool → String → Text → StoreResult (Unit {0})
require found entity id = if found then ok tt else err (not_found entity id)

module _ {T : Type 0} where
  -- A method that checks first and then writes: the checks leave the state, as `?` does before the
  -- first write, and the write does not fail.
  abbrev pub checked {ℓ κ} :
      {A : Type ℓ} {B : Type κ}
      → Inner T
      → StoreResult A
      → (A → B × Inner T)
      → StoreResult B × Inner T
  checked s (err e) write = (err e, s)
  checked s (ok a) write = let (b, s') = write a in (ok b, s')

  unfoldable pub require_user : Inner T → Text → StoreResult (Unit {0})
  unfolding require
  require_user s username = require (contains_key username s.users) "user" username

  unfoldable pub require_group : Inner T → Text → StoreResult (Unit {0})
  unfolding require
  require_group s group_id = require (contains_key group_id s.groups) "group" group_id

  unfoldable pub require_policy : Inner T → Text → StoreResult (Unit {0})
  unfolding require
  require_policy s name = require (contains_key name s.policies) "policy" name

  -- The unique columns of `insert_user`: a value that another row holds is refused.
  unfoldable pub unique_value :
      String → (UserRecord T → Option Text) → Option Text → Inner T → StoreResult (Unit {0})
  unique_value entity column none s = ok tt
  unique_value entity column (some value) s =
      if any (λ u. eq_option (column u) (some value)) (values s.users)
      then err (already_exists entity value)
      else ok tt

  unfoldable pub check_user : NewUser T → Inner T → StoreResult (Unit {0})
  unfolding unique_value
  check_user user s =
      if contains_key user.username s.users then err (already_exists "user" user.username) else do
        unique_value "user with email" (λ u. u.email) user.email s
        unique_value "user with external id" (λ u. u.external_id) user.external_id s

  abbrev pub user_record : NewUser T → ℕ → UserRecord T
  user_record user user_id = record {
    username = user.username;
    user_id = user_id;
    creation_date = user.creation_date;
    friendly_name = user.friendly_name;
    email = user.email;
    source = user.source;
    external_id = user.external_id;
    encrypted_password = user.encrypted_password;
  }

  -- `next_user_id` is an `i64`; it counts the creates and is taken not to wrap.
  unfoldable pub insert_user : NewUser T → Inner T → StoreResult (UserRecord T) × Inner T
  unfolding check_user
  insert_user user s = checked s (check_user user s) λ _.
      let next_user_id = s.next_user_id + 1 in
      let row = user_record user next_user_id in
      (row, record s { next_user_id = next_user_id; users = insert user.username row s.users })

  unfoldable pub insert_group : NewGroup T → Inner T → StoreResult (GroupRecord T) × Inner T
  insert_group group s =
      if contains_key group.id s.groups
      then (err (already_exists "group" group.id), s)
      else let row : GroupRecord T = record {
        id = group.id;
        description = group.description;
        creation_date = group.creation_date;
      } in
        (ok row, record s { groups = insert group.id row s.groups })

  unfoldable pub insert_policy : NewPolicy T → Inner T → StoreResult (PolicyRecord T) × Inner T
  insert_policy policy s =
      if contains_key policy.name s.policies
      then (err (already_exists "policy" policy.name), s)
      else let row : PolicyRecord T = record {
        name = policy.name;
        creation_date = policy.creation_date;
        statement = policy.statement;
        acl = policy.acl;
      } in
        (ok row, record s { policies = insert policy.name row s.policies })

  abbrev pub check_credential : NewCredential T → Inner T → StoreResult ℕ
  check_credential credential s = do
    user ← ok_or (not_found "user" credential.username) (get credential.username s.users)
    if contains_key credential.access_key_id s.credentials
        then err (already_exists "credentials" credential.access_key_id)
        else ok user.user_id

  unfoldable pub insert_credential :
      NewCredential T → Inner T → StoreResult (CredentialRecord T) × Inner T
  insert_credential credential s = checked s (check_credential credential s) λ user_id.
      let row : CredentialRecord T = record {
        access_key_id = credential.access_key_id;
        username = credential.username;
        user_id = user_id;
        secret_ciphertext = credential.secret_ciphertext;
        creation_date = credential.creation_date;
      } in
      (row, record s { credentials = insert credential.access_key_id row s.credentials })

  unfoldable pub cascade_delete_user : Text → Inner T → Inner T
  cascade_delete_user username s = record s {
    group_members = retain (λ k _. not (k.1 == username)) s.group_members;
    user_policies = retain (λ k _. not (k.0 == username)) s.user_policies;
    credentials = retain (λ _ c. not (c.username == username)) s.credentials;
    external_principals = retain (λ _ p. not (p.username == username)) s.external_principals;
  }

  unfoldable pub cascade_delete_group : Text → Inner T → Inner T
  cascade_delete_group group_id s = record s {
    group_members = retain (λ k _. not (k.0 == group_id)) s.group_members;
    group_policies = retain (λ k _. not (k.0 == group_id)) s.group_policies;
  }

  unfoldable pub cascade_delete_policy : Text → Inner T → Inner T
  cascade_delete_policy name s = record s {
    user_policies = retain (λ k _. not (k.1 == name)) s.user_policies;
    group_policies = retain (λ k _. not (k.1 == name)) s.group_policies;
  }

  unfoldable pub policies_named : Inner T → List Text → List (Text × PolicyRecord T)
  policies_named s names =
      filter_map (λ name. Option.map (λ policy. (name, policy)) (get name s.policies)) names
