-- ===== src/Bootstrap/Checked/Users.antt =====
-- crates/lakefs-authz/src/bootstrap.rs: the loops over users.
use lakefs_auth.Common.{ℕ, ◌≡◌, Option, List, [], ◌∷◌, All, map, length}
use lakefs_auth.Std.Order.{Text, text_ord}
use lakefs_auth.Std.Result.{Result, ok, bind-ok, ok_or, map_err, ok_or-ok, map_err-ok}
use lakefs_auth.Core.Text.{non_blank}
use lakefs_auth.Core.Validate.{validate_entity_id}
use lakefs_auth.Core.Crypto.SecretBox.{SecretBox, seal_str}
use lakefs_auth.Store.Types.{NewUser, BootstrapPlan, validated_user, sealed}
use lakefs_auth.Bootstrap.File.{UserSpec, CredentialSpec, resolve_secret}
use lakefs_auth.Bootstrap.Plan.{
  for_each, push, anyhow, add_membership, add_user_policy, add_credential, add_user, fields_of,
}
use lakefs_auth.Bootstrap.Checked.{
  usernames, IsId, IsIn, IsChecked, resolve_secret-IsSourced, for_each-Keeps, for_each-KeepsOf,
  All-push, All-weaken, IsIn-push, IsIn-cons, IsIn-first, checked-ok, anyhow-ok,
}

module _ {T : Type 0} (from_str : Text → Result (List Text) Text) (secrets : SecretBox)
    (env : Text → Option Text) (given : Text → CredentialSpec → Type 0) where
  abbrev Checked : List Text → List Text → BootstrapPlan T → Type 0
  Checked = IsChecked from_str secrets env given

  add_membership-Keeps :
      (username group : Text) (plan after : BootstrapPlan T)
      → add_membership username group plan ≡ ok after
      → Checked (username ∷ []) [] plan
      → Checked (username ∷ []) [] after
  unfolding add_membership
  add_membership-Keeps username group plan after h c =
      let (u, read, done) = bind-ok (anyhow (validate_entity_id "group" group)) _ after h in
      let same : record plan { memberships = push plan.memberships (group, username) } ≡ after =
        cc in
      let valid : IsId "group" group = anyhow-ok _ u read in
      rw (← same) (record {
        policies = c.policies;
        groups = c.groups;
        users = c.users;
        memberships =
            All-push _ plan.memberships (group, username) c.memberships
              (valid, IsIn-first username (usernames plan));
        user_policies = c.user_policies;
        group_policies = c.group_policies;
        credentials = c.credentials;
      })

  add_user_policy-Keeps :
      (username policy : Text) (plan after : BootstrapPlan T)
      → add_user_policy username policy plan ≡ ok after
      → Checked (username ∷ []) [] plan
      → Checked (username ∷ []) [] after
  unfolding add_user_policy
  add_user_policy-Keeps username policy plan after h c =
      let (u, read, done) = bind-ok (anyhow (validate_entity_id "policy" policy)) _ after h in
      let same : record plan { user_policies = push plan.user_policies (username, policy) }
          ≡ after =
        cc in
      let valid : IsId "policy" policy = anyhow-ok _ u read in
      rw (← same) (record {
        policies = c.policies;
        groups = c.groups;
        users = c.users;
        memberships = c.memberships;
        user_policies =
            All-push _ plan.user_policies (username, policy) c.user_policies
              (valid, IsIn-first username (usernames plan));
        group_policies = c.group_policies;
        credentials = c.credentials;
      })

  add_credential-Keeps :
      (nonces : ℕ → List ℕ) (now : T) (username : Text) (spec : CredentialSpec)
      → given username spec
      → (plan after : BootstrapPlan T)
      → add_credential secrets env nonces now username spec plan ≡ ok after
      → Checked (username ∷ []) [] plan
      → Checked (username ∷ []) [] after
  unfolding add_credential sealed
  add_credential-Keeps nonces now username spec listed plan after h c =
      let nonce = nonces (length plan.credentials) in
      let (key, keyed, h1) = bind-ok (ok_or _ (non_blank spec.access_key_id)) _ after h in
      let (secret, sourced, h2) = bind-ok (resolve_secret env spec) _ after h1 in
      let (row, made, h3) =
        bind-ok (map_err _ (sealed username key secret secrets nonce now)) _ after h2 in
      let (blob, cipher, done) =
        bind-ok (seal_str secrets nonce secret) _ row (map_err-ok _ _ row made) in
      let same : record plan { credentials = push plan.credentials row } ≡ after = cc in
      let stored : record {
        access_key_id = key;
        username = username;
        secret_ciphertext = blob;
        creation_date = now;
      }
          ≡ row =
        cc in
      rw (← same, ← stored)
        (record {
          policies = c.policies;
          groups = c.groups;
          users = c.users;
          memberships = c.memberships;
          user_policies = c.user_policies;
          group_policies = c.group_policies;
          credentials = All-push _ plan.credentials _ c.credentials (
            record {
              spec = spec;
              listed = listed;
              secret = secret;
              nonce = nonce;
              key = ok_or-ok _ (non_blank spec.access_key_id) key keyed;
              sourced = resolve_secret-IsSourced env spec secret sourced;
              ciphertext = cipher;
            },
            IsIn-first username (usernames plan),
          );
        })

  user-Checked :
      (plan : BootstrapPlan T) (row : NewUser T)
      → IsId "user" row.username
      → Checked (row.username ∷ []) [] plan
      → Checked [] [] (record plan { users = push plan.users row })
  user-Checked plan row valid c =
      let moved : (text : Text)
          → IsIn (row.username ∷ usernames plan) text
          → IsIn (map (λ u. u.username) (push plan.users row)) text =
        IsIn-push (λ u. u.username) plan.users row in
      record {
        policies = c.policies;
        groups = c.groups;
        users = All-push _ plan.users row c.users valid;
        memberships = All-weaken _ _ (λ m h. (h.0, moved m.1 h.1)) plan.memberships c.memberships;
        user_policies =
            All-weaken _ _ (λ a h. (h.0, moved a.0 h.1)) plan.user_policies c.user_policies;
        group_policies = c.group_policies;
        credentials =
            All-weaken _ _ (λ k h. (h.0, moved k.username h.1)) plan.credentials c.credentials;
      }

  reading_user :
      (username : Text) (plan : BootstrapPlan T)
      → Checked [] [] plan
      → Checked (username ∷ []) [] plan
  reading_user username plan c =
      let kept : (text : Text)
          → IsIn (usernames plan) text
          → IsIn (username ∷ usernames plan) text =
        IsIn-cons username (usernames plan) in
      record {
        policies = c.policies;
        groups = c.groups;
        users = c.users;
        memberships = All-weaken _ _ (λ m h. (h.0, kept m.1 h.1)) plan.memberships c.memberships;
        user_policies =
            All-weaken _ _ (λ a h. (h.0, kept a.0 h.1)) plan.user_policies c.user_policies;
        group_policies = c.group_policies;
        credentials =
            All-weaken _ _ (λ k h. (h.0, kept k.username h.1)) plan.credentials c.credentials;
      }

  pub add_user-Keeps :
      (nonces : ℕ → List ℕ) (now : T) (spec : UserSpec)
      → All (given spec.username) spec.credentials
      → (plan after : BootstrapPlan T) → add_user secrets env nonces now spec plan ≡ ok after
      → Checked [] [] plan
      → Checked [] [] after
  unfolding add_user validated_user
  add_user-Keeps nonces now spec listed plan after h c =
      let reading = Checked (spec.username ∷ []) [] in
      let (joined, loop1, h1) =
        bind-ok (for_each (add_membership spec.username) spec.groups plan) _ after h in
      let (attached, loop2, h2) =
        bind-ok (for_each (add_user_policy spec.username) spec.policies joined) _ after h1 in
      let (keyed, loop3, h3) =
        bind-ok
          (for_each (add_credential secrets env nonces now spec.username) spec.credentials attached)
          _ after h2 in
      let (row, checked, done) =
        bind-ok (anyhow (validated_user spec.username (fields_of spec) now)) _ after h3 in
      let (valid, made) =
        checked-ok (validate_entity_id "user" spec.username) _ row (anyhow-ok _ row checked) in
      let same : record keyed { users = push keyed.users row } ≡ after = cc in
      let c1 =
        for_each-Keeps reading _ (add_membership-Keeps spec.username) spec.groups plan joined loop1
          (reading_user spec.username plan c) in
      let c2 =
        for_each-Keeps reading _ (add_user_policy-Keeps spec.username) spec.policies joined attached
          loop2 c1 in
      let c3 =
        for_each-KeepsOf (given spec.username) reading _
          (add_credential-Keeps nonces now spec.username) spec.credentials listed attached keyed
          loop3 c2 in
      rw (← same, ← made) (user-Checked keyed _ valid c3)
