-- ===== src/Bootstrap/Checked.antt =====
-- crates/lakefs-authz/src/bootstrap.rs: what a plan from a bootstrap file holds.
pub mod Groups
pub mod Users
pub mod Names
pub mod Files
use lakefs_auth.Common.{
  String, ℕ, ◌≡◌, refl, ap, ◌∙◌, sym, inl, inr, ◌⊎◌, Bool, true, false, ◌||◌, Option, none, some,
  List, [], ◌∷◌, ◌++◌, All, All-append, any, map, length, arith,
}
use lakefs_auth.Std.Order.{Text, text_ord, ◌==◌}
use lakefs_auth.Std.Sort.{has}
use lakefs_auth.Std.Result.{Result, ok, err, ◌>>=◌, bind-ok, ok_or, map_err, ok_or-ok, map_err-ok}
use lakefs_auth.Core.Error.{ApiError, to_string}
use lakefs_auth.Core.Text.{non_blank}
use lakefs_auth.Core.Validate.{validate_entity_id, validate_policy}
use lakefs_auth.Core.Crypto.SecretBox.{SecretBox, seal_str}
use lakefs_auth.Service.KeyRequests.{crypto_text}
use lakefs_auth.Store.Types.{
  NewPolicy, NewGroup, NewUser, NewCredential, BootstrapPlan, validated_user, validated_group,
  validated_policy, sealed,
}
use lakefs_auth.Bootstrap.File.{
  BootstrapFile, PolicySpec, GroupSpec, UserSpec, CredentialSpec, secret_from, resolve_secret,
}
use lakefs_auth.Bootstrap.Plan.{
  for_each, push, anyhow, add_policy, add_group_policy, add_group, add_membership, add_user_policy,
  add_credential, add_user, plan_of, parse_plan_with_env, empty_plan, fields_of,
}

-- A secret comes from one source.
abbrev pub IsSourced : (Text → Option Text) → CredentialSpec → Text → Type 0
IsSourced env spec secret =
    ((spec.secret_access_key ≡ some secret) × (spec.secret_access_key_env ≡ none))
    ⊎ ((spec.secret_access_key ≡ none)
        × ((variable : Text) × ((spec.secret_access_key_env ≡ some variable)
              × (env variable ≡ some secret))))

abbrev pub usernames : {T : Type 0} → BootstrapPlan T → List Text
usernames plan = map (λ u. u.username) plan.users

abbrev pub group_ids : {T : Type 0} → BootstrapPlan T → List Text
group_ids plan = map (λ g. g.id) plan.groups

abbrev pub IsId : String → Text → Type 0
IsId kind id = validate_entity_id kind id ≡ ok tt

abbrev pub IsIn : List Text → Text → Type 0
IsIn list text = has list text ≡ true

-- A row holds the sealed secret of an entry that is given for its user.
pub record IsFrom {T : Type 0} (secrets : SecretBox) (env : Text → Option Text)
    (given : Text → CredentialSpec → Type 0) (row : NewCredential T) : Type 0 where
  pub spec : CredentialSpec
  pub listed : given row.username spec
  pub secret : Text
  pub nonce : List ℕ
  pub key : non_blank spec.access_key_id ≡ some row.access_key_id
  pub sourced : IsSourced env spec secret
  pub ciphertext : seal_str secrets nonce secret ≡ ok row.secret_ciphertext

-- Each entry is one that the API accepts, and each link is of a user or a group of the plan, or of
-- those named first, which are being read.
pub record IsChecked {T : Type 0} (from_str : Text → Result (List Text) Text) (secrets : SecretBox)
    (env : Text → Option Text) (given : Text → CredentialSpec → Type 0) (user group : List Text)
    (plan : BootstrapPlan T) : Type 0 where
  pub policies : All (λ p. validate_policy from_str p.name p.statement ≡ ok tt) plan.policies
  pub groups : All (λ g. IsId "group" g.id) plan.groups
  pub users : All (λ u. IsId "user" u.username) plan.users
  pub memberships : All (λ m. IsId "group" m.0 × IsIn (user ++ usernames plan) m.1) plan.memberships
  pub user_policies :
      All (λ a. IsId "policy" a.1 × IsIn (user ++ usernames plan) a.0) plan.user_policies
  pub group_policies :
      All (λ a. IsId "policy" a.1 × IsIn (group ++ group_ids plan) a.0) plan.group_policies
  pub credentials :
      All
        (λ c. IsFrom secrets env given c × IsIn (user ++ usernames plan) c.username)
        plan.credentials

pub for_each-Keeps :
    {A S E : Type 0} (P : S → Type 0) (step : A → S → Result S E)
    → ((x : A) (s s' : S) → step x s ≡ ok s' → P s → P s')
    → (xs : List A) (s s' : S) → for_each step xs s ≡ ok s'
    → P s
    → P s'
unfolding for_each
for_each-Keeps P step h [] s s' e p = let same : s ≡ s' = cc in rw (← same) p
for_each-Keeps P step h (x ∷ xs) s s' e p =
    let (mid, first, rest) = bind-ok (step x s) (for_each step xs) s' e in
    for_each-Keeps P step h xs mid s' rest (h x s mid first p)

-- The same, where the entries of the loop are known to have a property.
pub for_each-KeepsOf :
    {A S E : Type 0} (Q : A → Type 0) (P : S → Type 0) (step : A → S → Result S E)
    → ((x : A) → Q x → (s s' : S) → step x s ≡ ok s' → P s → P s')
    → (xs : List A) → All Q xs
    → (s s' : S) → for_each step xs s ≡ ok s'
    → P s
    → P s'
unfolding for_each
for_each-KeepsOf Q P step h [] q s s' e p = let same : s ≡ s' = cc in rw (← same) p
for_each-KeepsOf Q P step h (x ∷ xs) (q, qs) s s' e p =
    let (mid, first, rest) = bind-ok (step x s) (for_each step xs) s' e in
    for_each-KeepsOf Q P step h xs qs mid s' rest (h x q s mid first p)

pub All-push :
    {A : Type 0} (P : A → Type 0) (xs : List A) (x : A) → All P xs → P x → All P (push xs x)
All-push P xs x h p = All-append P xs (x ∷ []) h (p, tt)

pub All-weaken :
    {A : Type 0} (P Q : A → Type 0) → ((x : A) → P x → Q x) → (xs : List A) → All P xs → All Q xs
All-weaken P Q h [] p = tt
All-weaken P Q h (x ∷ xs) (p, ps) = (h x p, All-weaken P Q h xs ps)

has-push :
    {A : Type 0} (name : A → Text) (xs : List A) (x : A) (text : Text)
    → has (map name (push xs x)) text ≡ has (map name xs) text || (name x == text)
has-push name [] x text = ground arith
has-push name (y ∷ ys) x text = ground (arith, has-push name ys x text)

-- The name that is read first is then the last of those in the plan.
pub IsIn-push :
    {A : Type 0} (name : A → Text) (xs : List A) (x : A) (text : Text)
    → IsIn (name x ∷ map name xs) text
    → IsIn (map name (push xs x)) text
IsIn-push name xs x text h = ground (arith, has-push name xs x text, h)

pub IsIn-cons :
    (first : Text) (list : List Text) (text : Text) → IsIn list text → IsIn (first ∷ list) text
IsIn-cons first list text h = ground (arith, h)

pub IsIn-first : (first : Text) (list : List Text) → IsIn (first ∷ list) first
IsIn-first first list = ground (arith, text_ord.cmp_self first)

pub checked-ok :
    {A : Type 0} (m : Result (Unit {0}) ApiError) (a b : A)
    → (m >>= λ _. ok a) ≡ ok b
    → (m ≡ ok tt) × (a ≡ b)
checked-ok (ok tt) a b h = (refl, cc)
checked-ok (err e) a b h = absurd (ground arith)

pub anyhow-ok : {A : Type 0} (r : Result A ApiError) (a : A) → anyhow r ≡ ok a → r ≡ ok a
unfolding to_string
anyhow-ok r a h = map_err-ok to_string r a h

secret_from-IsSourced :
    (env : Text → Option Text) (key : Text) (literal variable : Option Text) (secret : Text)
    → secret_from env key literal variable ≡ ok secret
    → ((literal ≡ some secret) × (variable ≡ none))
      ⊎ ((literal ≡ none) × ((name : Text) × ((variable ≡ some name) × (env name ≡ some secret))))
unfolding secret_from
secret_from-IsSourced env key (some literal) (some variable) secret h = absurd (ground arith)
secret_from-IsSourced env key (some literal) none secret h = inl (cc, refl)
secret_from-IsSourced env key none (some variable) secret h =
    inr (refl, (variable, (refl, ok_or-ok _ (env variable) secret h)))
secret_from-IsSourced env key none none secret h = absurd (ground arith)

pub resolve_secret-IsSourced :
    (env : Text → Option Text) (spec : CredentialSpec) (secret : Text)
    → resolve_secret env spec ≡ ok secret
    → IsSourced env spec secret
unfolding resolve_secret
resolve_secret-IsSourced env spec secret h =
    secret_from-IsSourced env spec.access_key_id spec.secret_access_key spec.secret_access_key_env
      secret h
