-- ===== src/Bootstrap/Checked/Files.antt =====
-- crates/lakefs-authz/src/bootstrap.rs: a file that was read.
use lakefs_auth.Common.{ℕ, ◌≡◌, refl, Option, List, [], ◌∷◌, All, map}
use mathlib.Core.List.{Memᴰ}
use lakefs_auth.Std.Order.{Text, text_ord}
use lakefs_auth.Std.Result.{Result, ok, bind-ok}
use lakefs_auth.Core.Crypto.SecretBox.{SecretBox}
use lakefs_auth.Store.Types.{BootstrapPlan}
use lakefs_auth.Bootstrap.File.{check_version, BootstrapFile, UserSpec, CredentialSpec}
use lakefs_auth.Bootstrap.Plan.{
  for_each, add_policy, add_group, plan_of, parse_plan_with_env, document, empty_plan,
}
use lakefs_auth.Bootstrap.Checked.Groups.{add_policy-Keeps, add_group-Keeps}
use lakefs_auth.Bootstrap.Checked.Names.{usernames-plan_of}
use lakefs_auth.Bootstrap.Checked.Users.{add_user-Keeps}
use lakefs_auth.Bootstrap.Checked.{IsChecked, usernames, for_each-Keeps, for_each-KeepsOf}

-- A credential that the file lists for a user of this name.
abbrev pub IsListed : BootstrapFile → Text → CredentialSpec → Type 0
IsListed file username spec =
    (user : UserSpec) × Memᴰ user file.users
    × (user.username ≡ username)
    × Memᴰ spec user.credentials

All-Memᴰ : {A : Type 0} (P : A → Type 0) (xs : List A) → ((x : A) → Memᴰ x xs → P x) → All P xs
All-Memᴰ P [] h = tt
All-Memᴰ P (x ∷ xs) h = (h x (Memᴰ.head refl), All-Memᴰ P xs (λ y m. h y (Memᴰ.tail m)))

users-IsListed :
    (file : BootstrapFile)
    → All (λ user. All (IsListed file user.username) user.credentials) file.users
users-IsListed file =
    All-Memᴰ _ file.users (λ user m. All-Memᴰ _ user.credentials (λ spec n. (user, m, refl, n)))

module _ {T : Type 0} (from_str : Text → Result (List Text) Text) (secrets : SecretBox)
    (env : Text → Option Text) where
  abbrev Checked : BootstrapFile → List Text → List Text → BootstrapPlan T → Type 0
  Checked file = IsChecked from_str secrets env (IsListed file)

  plan_of-Keeps :
      (nonces : ℕ → List ℕ) (now : T) (file : BootstrapFile) (plan : BootstrapPlan T)
      → plan_of from_str secrets env nonces now file ≡ ok plan
      → Checked file [] [] plan
  unfolding plan_of
  plan_of-Keeps nonces now file plan h =
      let (first, loop1, h1) =
        bind-ok (for_each (add_policy from_str now) file.policies (empty_plan T)) _ plan h in
      let (second, loop2, h2) = bind-ok (for_each (add_group now) file.groups first) _ plan h1 in
      let start : Checked file [] [] (empty_plan T) = record {
        policies = tt;
        groups = tt;
        users = tt;
        memberships = tt;
        user_policies = tt;
        group_policies = tt;
        credentials = tt;
      } in
      let keeps_policy = add_policy-Keeps from_str secrets env (IsListed file) now in
      let keeps_group = add_group-Keeps from_str secrets env (IsListed file) now in
      let keeps_user = add_user-Keeps from_str secrets env (IsListed file) nonces now in
      let c1 =
        for_each-Keeps (Checked file [] []) _ keeps_policy file.policies _ first loop1 start in
      let c2 =
        for_each-Keeps (Checked file [] []) _ keeps_group file.groups first second loop2 c1 in
      for_each-KeepsOf _ (Checked file [] []) _ keeps_user file.users (users-IsListed file) second
        plan h2 c2

  -- A plan that is read has the users of the file that the document holds, in their order, whatever
  -- that file is. Its policies pass the rules of the API, and so do the names of the users, of the
  -- groups and of what they are linked to; each link is of a user or a group of the plan; each
  -- credential is of a user of the plan, has a key that is not blank, and the sealed secret of a
  -- credential that the file lists for that user, from exactly one source.
  pub parse_plan_with_env-IsChecked :
      (from_yaml : Text → Result BootstrapFile Text) (nonces : ℕ → List ℕ) (now : T) (yaml : Text)
      (plan : BootstrapPlan T)
      → parse_plan_with_env from_yaml from_str secrets env nonces now yaml ≡ ok plan
      → (file : BootstrapFile) × (document from_yaml yaml ≡ ok file)
        × (usernames plan ≡ map (λ u. u.username) file.users)
        × IsChecked from_str secrets env (IsListed file) [] [] plan
  unfolding parse_plan_with_env
  parse_plan_with_env-IsChecked from_yaml nonces now yaml plan h =
      let (file, read, h1) = bind-ok (document from_yaml yaml) _ plan h in
      let (u, versioned, h2) = bind-ok (check_version file.version) _ plan h1 in
      (
        file,
        read,
        usernames-plan_of secrets env nonces now from_str file plan h2,
        plan_of-Keeps nonces now file plan h2,
      )
