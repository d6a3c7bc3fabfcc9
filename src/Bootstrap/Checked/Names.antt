-- ===== src/Bootstrap/Checked/Names.antt =====
-- crates/lakefs-authz/src/bootstrap.rs: the users of a plan are those of its file.
use lakefs_auth.Common.{ℕ, ◌≡◌, refl, ◌∙◌, ap, Option, List, [], ◌∷◌, ◌++◌, map, arith, length}
use lakefs_auth.Std.Order.{Text, text_ord}
use lakefs_auth.Std.Result.{Result, ok, bind-ok, ok_or, map_err}
use lakefs_auth.Core.Text.{non_blank}
use lakefs_auth.Core.Validate.{validate_entity_id}
use lakefs_auth.Core.Crypto.SecretBox.{SecretBox}
use lakefs_auth.Store.Types.{
  NewUser, BootstrapPlan, validated_user, validated_group, validated_policy, sealed,
}
use lakefs_auth.Bootstrap.File.{
  PolicySpec, GroupSpec, UserSpec, CredentialSpec, BootstrapFile, resolve_secret,
}
use lakefs_auth.Bootstrap.Plan.{
  for_each, push, anyhow, add_policy, add_group_policy, add_group, add_membership, add_user_policy,
  add_credential, add_user, plan_of, fields_of, empty_plan,
}
use lakefs_auth.Bootstrap.Checked.{usernames, for_each-Keeps, checked-ok, anyhow-ok}

usernames-push :
    {T : Type 0} (users : List (NewUser T)) (row : NewUser T)
    → map (λ u. u.username) (push users row) ≡ push (map (λ u. u.username) users) row.username
usernames-push [] row = refl
usernames-push (u ∷ users) row = ap (λ t. u.username ∷ t) (usernames-push users row)

push-append : (xs : List Text) (x : Text) (ys : List Text) → push xs x ++ ys ≡ xs ++ (x ∷ ys)
push-append [] x ys = refl
push-append (z ∷ xs) x ys = ap (λ t. z ∷ t) (push-append xs x ys)

append_nil : (xs : List Text) → xs ++ [] ≡ xs
append_nil [] = refl
append_nil (x ∷ xs) = ap (λ t. x ∷ t) (append_nil xs)

module _ {T : Type 0} where
  -- A plan has the users that are given.
  abbrev HasUsers : List (NewUser T) → BootstrapPlan T → Type 0
  HasUsers users plan = plan.users ≡ users

  module _ (users : List (NewUser T)) where
    add_membership-HasUsers :
        (username group : Text) (plan after : BootstrapPlan T)
        → add_membership username group plan ≡ ok after
        → HasUsers users plan
        → HasUsers users after
    unfolding add_membership
    add_membership-HasUsers username group plan after h k =
        let (u, read, done) = bind-ok (anyhow (validate_entity_id "group" group)) _ after h in
        ground (arith, done, k)

    add_user_policy-HasUsers :
        (username policy : Text) (plan after : BootstrapPlan T)
        → add_user_policy username policy plan ≡ ok after
        → HasUsers users plan
        → HasUsers users after
    unfolding add_user_policy
    add_user_policy-HasUsers username policy plan after h k =
        let (u, read, done) = bind-ok (anyhow (validate_entity_id "policy" policy)) _ after h in
        ground (arith, done, k)

    add_group_policy-HasUsers :
        (group_id policy : Text) (plan after : BootstrapPlan T)
        → add_group_policy group_id policy plan ≡ ok after
        → HasUsers users plan
        → HasUsers users after
    unfolding add_group_policy
    add_group_policy-HasUsers group_id policy plan after h k =
        let (u, read, done) = bind-ok (anyhow (validate_entity_id "policy" policy)) _ after h in
        ground (arith, done, k)

    add_group-HasUsers :
        (now : T) (spec : GroupSpec) (plan after : BootstrapPlan T)
        → add_group now spec plan ≡ ok after
        → HasUsers users plan
        → HasUsers users after
    unfolding add_group
    add_group-HasUsers now spec plan after h k =
        let (attached, looped, h1) =
          bind-ok (for_each (add_group_policy spec.id) spec.policies plan) _ after h in
        let (row, read, done) =
          bind-ok (anyhow (validated_group spec.id spec.description now)) _ after h1 in
        let kept =
          for_each-Keeps (HasUsers users) (add_group_policy spec.id)
            (add_group_policy-HasUsers spec.id) spec.policies plan attached looped k in
        ground (arith, done, kept)

    add_policy-HasUsers :
        (from_str : Text → Result (List Text) Text) (now : T) (spec : PolicySpec)
        (plan after : BootstrapPlan T)
        → add_policy from_str now spec plan ≡ ok after
        → HasUsers users plan
        → HasUsers users after
    unfolding add_policy
    add_policy-HasUsers from_str now spec plan after h k =
        let (row, read, done) =
          bind-ok (anyhow (validated_policy from_str spec.name spec.statement spec.acl now)) _ after
            h in
        ground (arith, done, k)

    module _ (secrets : SecretBox) (env : Text → Option Text) (nonces : ℕ → List ℕ) (now : T) where
      add_credential-HasUsers :
          (username : Text) (spec : CredentialSpec) (plan after : BootstrapPlan T)
          → add_credential secrets env nonces now username spec plan ≡ ok after
          → HasUsers users plan
          → HasUsers users after
      unfolding add_credential
      add_credential-HasUsers username spec plan after h k =
          let (key, keyed, h1) = bind-ok (ok_or _ (non_blank spec.access_key_id)) _ after h in
          let (secret, sourced, h2) = bind-ok (resolve_secret env spec) _ after h1 in
          let (row, made, done) =
            bind-ok
              (map_err _
                (sealed username key secret secrets (nonces (length plan.credentials)) now))
              _ after h2 in
          ground (arith, done, k)

  module _ (secrets : SecretBox) (env : Text → Option Text) (nonces : ℕ → List ℕ) (now : T) where
    usernames-add_user :
        (spec : UserSpec) (plan after : BootstrapPlan T)
        → add_user secrets env nonces now spec plan ≡ ok after
        → usernames after ≡ push (usernames plan) spec.username
    unfolding add_user validated_user
    usernames-add_user spec plan after h =
        let (joined, loop1, h1) =
          bind-ok (for_each (add_membership spec.username) spec.groups plan) _ after h in
        let (attached, loop2, h2) =
          bind-ok (for_each (add_user_policy spec.username) spec.policies joined) _ after h1 in
        let (keyed, loop3, h3) =
          bind-ok
            (for_each (add_credential secrets env nonces now spec.username) spec.credentials
              attached)
            _ after h2 in
        let (row, checked, done) =
          bind-ok (anyhow (validated_user spec.username (fields_of spec) now)) _ after h3 in
        let (valid, made) =
          checked-ok (validate_entity_id "user" spec.username) _ row (anyhow-ok _ row checked) in
        let same : record keyed { users = push keyed.users row } ≡ after = cc in
        let k1 =
          for_each-Keeps (HasUsers plan.users) _ (add_membership-HasUsers plan.users spec.username)
            spec.groups plan joined loop1 refl in
        let k2 =
          for_each-Keeps (HasUsers plan.users) _ (add_user_policy-HasUsers plan.users spec.username)
            spec.policies joined attached loop2 k1 in
        let k3 =
          for_each-Keeps (HasUsers plan.users) _
            (add_credential-HasUsers plan.users secrets env nonces now spec.username)
            spec.credentials attached keyed loop3 k2 in
        rw (← same) (rw (k3, ← made) (usernames-push plan.users _))

    usernames-for_each :
        (users : List UserSpec) (plan after : BootstrapPlan T)
        → for_each (add_user secrets env nonces now) users plan ≡ ok after
        → usernames after ≡ usernames plan ++ map (λ u. u.username) users
    unfolding for_each
    usernames-for_each [] plan after h =
        let same : plan ≡ after = cc in rw (← same, append_nil) refl
    usernames-for_each (spec ∷ users) plan after h =
        let (mid, first, rest) =
          bind-ok (add_user secrets env nonces now spec plan)
            (for_each (add_user secrets env nonces now) users) after h in
        usernames-for_each users mid after rest
        ∙ ap (λ t. t ++ map (λ u. u.username) users) (usernames-add_user spec plan mid first)
        ∙ push-append (usernames plan) spec.username (map (λ u. u.username) users)

    -- The users of a plan are those of its file, in their order.
    pub usernames-plan_of :
        (from_str : Text → Result (List Text) Text) (file : BootstrapFile) (plan : BootstrapPlan T)
        → plan_of from_str secrets env nonces now file ≡ ok plan
        → usernames plan ≡ map (λ u. u.username) file.users
    unfolding plan_of
    usernames-plan_of from_str file plan h =
        let (first, loop1, h1) =
          bind-ok (for_each (add_policy from_str now) file.policies (empty_plan T)) _ plan h in
        let (second, loop2, h2) = bind-ok (for_each (add_group now) file.groups first) _ plan h1 in
        let k1 =
          for_each-Keeps (HasUsers []) _ (add_policy-HasUsers [] from_str now) file.policies _ first
            loop1 refl in
        let k2 =
          for_each-Keeps (HasUsers []) _ (add_group-HasUsers [] now) file.groups first second loop2
            k1 in
        usernames-for_each file.users second plan h2
        ∙ ap (λ us. map (λ u. u.username) us ++ map (λ u. u.username) file.users) k2
