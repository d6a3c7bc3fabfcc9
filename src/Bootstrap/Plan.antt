-- ===== src/Bootstrap/Plan.antt =====
-- crates/lakefs-authz/src/bootstrap.rs: from a file to a plan, and the plan applied. The YAML parser
-- is a parameter, and `nonces` is what the generator answers to each sealing, counted by those
-- before it.
use lakefs_auth.Common.{ℕ, Option, none, List, [], ◌∷◌, ◌++◌, length, if◌then◌else◌}
use lakefs_auth.Std.Order.{Text}
use lakefs_auth.Std.Str.{codes}
use lakefs_auth.Std.Result.{Result, ok, ◌>>=◌, ◌>>◌, ok_or, map_err}
use lakefs_auth.Core.Error.{ApiError, to_string}
use lakefs_auth.Core.Text.{non_blank}
use lakefs_auth.Core.Validate.{validate_entity_id}
use lakefs_auth.Core.Crypto.SecretBox.{SecretBox}
use lakefs_auth.Service.KeyRequests.{crypto_text}
use lakefs_auth.Store.Error.{StoreResult}
use lakefs_auth.Store.Types.{
  UserFields, BootstrapPlan, BootstrapCounts, BootstrapReport, validated_user, validated_group,
  validated_policy, sealed, plan_is_empty,
}
use lakefs_auth.Store.Mem.Inner.{Inner}
use lakefs_auth.Store.Bootstrap.Inner.{apply_bootstrap}
use lakefs_auth.Bootstrap.File.{
  BootstrapFile, PolicySpec, GroupSpec, UserSpec, CredentialSpec, empty_file, resolve_secret,
  is_blank_document, check_version,
}

-- `BootstrapPlan::default()` and `BootstrapReport::default()`
abbrev pub empty_plan : (T : Type 0) → BootstrapPlan T
empty_plan T = record {
  policies = [];
  groups = [];
  users = [];
  memberships = [];
  user_policies = [];
  group_policies = [];
  credentials = [];
}

abbrev pub empty_report : BootstrapReport
empty_report =
    let none_yet : BootstrapCounts = record {
      policies = 0;
      groups = 0;
      users = 0;
      memberships = 0;
      attachments = 0;
      credentials = 0;
    } in
    record { created = none_yet; skipped = none_yet }

-- `list.push(x)`
abbrev pub push : {A : Type 0} → List A → A → List A
push xs x = xs ++ (x ∷ [])

-- A loop that an error ends.
unfoldable pub for_each : {A S E : Type 0} → (A → S → Result S E) → List A → S → Result S E
for_each step [] s = ok s
for_each step (x ∷ xs) s = step x s >>= for_each step xs

-- `?` on the error of a handler
abbrev pub anyhow : {A : Type 0} → Result A ApiError → Result A Text
anyhow r = map_err to_string r

abbrev pub fields_of : UserSpec → UserFields
fields_of spec = record {
  friendly_name = spec.friendly_name;
  email = spec.email;
  source = spec.source;
  external_id = spec.external_id;
  encrypted_password = none;
}

abbrev pub document : (Text → Result BootstrapFile Text) → Text → Result BootstrapFile Text
document from_yaml yaml =
    if is_blank_document yaml
    then ok empty_file
    else map_err (λ e. codes "parse YAML: " ++ e) (from_yaml yaml)

module _ {T : Type 0} where
  unfoldable pub add_policy :
      (Text → Result (List Text) Text)
      → T
      → PolicySpec
      → BootstrapPlan T
      → Result (BootstrapPlan T) Text
  unfolding validated_policy to_string
  add_policy from_str now spec plan = do
    row ← anyhow (validated_policy from_str spec.name spec.statement spec.acl now)
    ok (record plan { policies = push plan.policies row })

  unfoldable pub add_group_policy : Text → Text → BootstrapPlan T → Result (BootstrapPlan T) Text
  unfolding validate_entity_id to_string
  add_group_policy group_id policy plan = do
    anyhow (validate_entity_id "policy" policy)
    ok (record plan { group_policies = push plan.group_policies (group_id, policy) })

  unfoldable pub add_group : T → GroupSpec → BootstrapPlan T → Result (BootstrapPlan T) Text
  unfolding for_each add_group_policy validated_group to_string
  add_group now spec plan = do
    attached ← for_each (add_group_policy spec.id) spec.policies plan
    row ← anyhow (validated_group spec.id spec.description now)
    ok (record attached { groups = push attached.groups row })

  unfoldable pub add_membership : Text → Text → BootstrapPlan T → Result (BootstrapPlan T) Text
  unfolding validate_entity_id to_string
  add_membership username group plan = do
    anyhow (validate_entity_id "group" group)
    ok (record plan { memberships = push plan.memberships (group, username) })

  unfoldable pub add_user_policy : Text → Text → BootstrapPlan T → Result (BootstrapPlan T) Text
  unfolding validate_entity_id to_string
  add_user_policy username policy plan = do
    anyhow (validate_entity_id "policy" policy)
    ok (record plan { user_policies = push plan.user_policies (username, policy) })

  unfoldable pub add_credential :
      SecretBox
      → (Text → Option Text)
      → (ℕ → List ℕ)
      → T
      → Text
      → CredentialSpec
      → BootstrapPlan T
      → Result (BootstrapPlan T) Text
  unfolding non_blank resolve_secret sealed crypto_text
  add_credential secrets env nonces now username spec plan = do
    access_key_id ←
        ok_or (codes "user " ++ (username ++ codes ": access_key_id must not be empty"))
          (non_blank spec.access_key_id)
    secret ← resolve_secret env spec
    row ←
        map_err (λ e. codes "encrypt bootstrap secret: " ++ crypto_text e)
          (sealed username access_key_id secret secrets (nonces (length plan.credentials)) now)
    ok (record plan { credentials = push plan.credentials row })

  unfoldable pub add_user :
      SecretBox
      → (Text → Option Text)
      → (ℕ → List ℕ)
      → T
      → UserSpec
      → BootstrapPlan T
      → Result (BootstrapPlan T) Text
  unfolding for_each add_membership add_user_policy add_credential validated_user to_string
  add_user secrets env nonces now spec plan = do
    joined ← for_each (add_membership spec.username) spec.groups plan
    attached ← for_each (add_user_policy spec.username) spec.policies joined
    keyed ← for_each (add_credential secrets env nonces now spec.username) spec.credentials attached
    row ← anyhow (validated_user spec.username (fields_of spec) now)
    ok (record keyed { users = push keyed.users row })

  -- What follows the parser.
  unfoldable pub plan_of :
      (Text → Result (List Text) Text)
      → SecretBox
      → (Text → Option Text)
      → (ℕ → List ℕ)
      → T
      → BootstrapFile
      → Result (BootstrapPlan T) Text
  unfolding for_each add_policy add_group add_user
  plan_of from_str secrets env nonces now file = do
    with_policies ← for_each (add_policy from_str now) file.policies (empty_plan T)
    with_groups ← for_each (add_group now) file.groups with_policies
    for_each (add_user secrets env nonces now) file.users with_groups

  unfoldable pub parse_plan_with_env :
      (Text → Result BootstrapFile Text)
      → (Text → Result (List Text) Text)
      → SecretBox
      → (Text → Option Text)
      → (ℕ → List ℕ)
      → T
      → Text
      → Result (BootstrapPlan T) Text
  unfolding is_blank_document plan_of
  parse_plan_with_env from_yaml from_str secrets env nonces now yaml = do
    file ← document from_yaml yaml
    check_version file.version
    plan_of from_str secrets env nonces now file

  -- `apply`, on the store in memory
  unfoldable pub apply : BootstrapPlan T → Inner T → StoreResult BootstrapReport × Inner T
  unfolding plan_is_empty apply_bootstrap
  apply plan s = if plan_is_empty plan then (ok empty_report, s) else apply_bootstrap plan s
