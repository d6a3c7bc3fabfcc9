-- ===== src/Store/Bootstrap/Keeps.antt =====
-- What the bootstrap loop keeps.
use lakefs_auth.Common.{◌≡◌, Bool, false, Option, none, some, List, [], ◌∷◌, arith}
use lakefs_auth.Std.Order.{Text, text_ord, ◌==◌}
use lakefs_auth.Std.Result.{ok, err}
use lakefs_auth.Store.Error.{StoreResult, StoreError, wrong_identity}
use lakefs_auth.Store.Types.{
  NewUser, NewGroup, NewPolicy, NewCredential, BootstrapPlan, same_identity_as,
}
use lakefs_auth.Store.Mem.Inner.{Inner}
use lakefs_auth.Store.Mem.Calls
use lakefs_auth.Store.Mem.Calls.{Call, run}
use lakefs_auth.Store.Mem.Users
use lakefs_auth.Store.Mem.Groups
use lakefs_auth.Store.Mem.Policies
use lakefs_auth.Store.Mem.Credentials
use lakefs_auth.Store.Mem.Invariant.{IsValid}
use lakefs_auth.Store.Mem.Invariant.Reach.{run-IsValid}
use lakefs_auth.Store.Bootstrap.{
  Write, BootstrapWriter, apply_all, apply_user, apply_credential, apply_plan, ◌>>=◌, pure,
  report_of, Tally, tally, checked_identity, continue,
}
use lakefs_auth.Store.Bootstrap.Inner.{
  inner_writer, swap_in, apply_bootstrap, insert_policy_if_missing, insert_group_if_missing,
  insert_user_if_missing, insert_membership_if_missing, insert_user_policy_if_missing,
  insert_group_policy_if_missing, insert_credential_if_missing,
}

module _ {W : Type 0} (P : W → Type 0) where
  -- Whatever the call answers, what held of the writer holds of it afterwards.
  pub record Keeps {A : Type 0} (write : Write W A) : Type 0 where
    pub kept : (w : W) → P w → P (write w).1

  continue_kept :
      {A B : Type 0} (f : A → Write W B) (r : StoreResult A × W)
      → P r.1
      → ((a : A) → Keeps (f a))
      → P (continue f r).1
  continue_kept f (err e, w) p h = p
  continue_kept f (ok a, w) p h = (h a).kept w p

  bind-Keeps :
      {A B : Type 0} {m : Write W A} {f : A → Write W B}
      → Keeps m
      → ((a : A) → Keeps (f a))
      → Keeps (m >>= f)
  bind-Keeps {A} {B} {m} {f} hm hf = record { kept = λ w p. continue_kept f (m w) (hm.kept w p) hf }

  pure-Keeps : {A : Type 0} (a : A) → Keeps (pure a)
  pure-Keeps a = record { kept = λ w p. p }

  apply_all-Keeps :
      {A : Type 0} (step : A → Write W Bool)
      → ((a : A) → Keeps (step a))
      → (entries : List A) (counts : Tally) → Keeps (apply_all step entries counts)
  unfolding apply_all
  apply_all-Keeps step h [] counts = pure-Keeps counts
  apply_all-Keeps step h (a ∷ entries) counts =
      bind-Keeps (h a) λ done. apply_all-Keeps step h entries (tally counts done)

  checked_identity-Keeps :
      {R : Type 0} (same : R → Bool) (e : StoreError) (row : Option R)
      → Keeps (checked_identity same e row)
  checked_identity-Keeps same e none = record { kept = λ w p. p }
  checked_identity-Keeps same e (some existing) = record { kept = λ w p. p }

  module _ {T : Type 0} (writer : BootstrapWriter T W) where
    pub record KeptBy : Type 0 where
      pub policy : (a : NewPolicy T) → Keeps (writer.insert_policy_if_missing a)
      pub group : (a : NewGroup T) → Keeps (writer.insert_group_if_missing a)
      pub user : (a : NewUser T) → Keeps (writer.insert_user_if_missing a)
      pub membership : (a b : Text) → Keeps (writer.insert_membership_if_missing a b)
      pub user_policy : (a b : Text) → Keeps (writer.insert_user_policy_if_missing a b)
      pub group_policy : (a b : Text) → Keeps (writer.insert_group_policy_if_missing a b)
      pub credential : (a : NewCredential T) → Keeps (writer.insert_credential_if_missing a)

    apply_user-Keeps : KeptBy → (user : NewUser T) → Keeps (apply_user writer user)
    unfolding apply_user
    apply_user-Keeps k user =
        bind-Keeps (k.user user)
          (checked_identity-Keeps (same_identity_as user) (wrong_identity "user" user.username))

    apply_credential-Keeps :
        KeptBy → (credential : NewCredential T) → Keeps (apply_credential writer credential)
    unfolding apply_credential
    apply_credential-Keeps k credential = bind-Keeps (k.credential credential) (
        checked_identity-Keeps (λ c. c.username == credential.username)
          (wrong_identity "credentials" credential.access_key_id))

    -- What each insert of a writer keeps, the run of a plan keeps, also when it stops half way.
    pub apply_plan-Keeps : KeptBy → (plan : BootstrapPlan T) → Keeps (apply_plan writer plan)
    unfolding apply_plan
    apply_plan-Keeps k plan =
        bind-Keeps (apply_all-Keeps _ k.policy plan.policies (0, 0)) λ policies.
          bind-Keeps (apply_all-Keeps _ k.group plan.groups (0, 0)) λ groups.
            bind-Keeps (apply_all-Keeps _ (apply_user-Keeps k) plan.users (0, 0)) λ users.
              bind-Keeps (apply_all-Keeps _ (λ e. k.membership e.0 e.1) plan.memberships (0, 0))
                λ memberships.
                  bind-Keeps
                    (apply_all-Keeps _ (λ e. k.user_policy e.0 e.1) plan.user_policies (0, 0))
                    λ for_users.
                      bind-Keeps
                        (apply_all-Keeps _ (λ e. k.group_policy e.0 e.1) plan.group_policies
                          for_users)
                        λ attachments.
                          bind-Keeps
                            (apply_all-Keeps _ (apply_credential-Keeps k) plan.credentials (0, 0))
                            λ credentials.
                              pure-Keeps (
                                report_of policies groups users memberships attachments credentials)

module _ {T : Type 0} where
  -- An insert of the plan leaves what the call of the store leaves that makes the same row.
  policy_call :
      (a : NewPolicy T) (s : Inner T)
      → (insert_policy_if_missing a s).1 ≡ (Policies.create_policy a s).1
  unfolding insert_policy_if_missing Policies.create_policy
  policy_call a s = ground arith

  group_call :
      (a : NewGroup T) (s : Inner T) → (insert_group_if_missing a s).1 ≡ (Groups.create_group a s).1
  unfolding insert_group_if_missing Groups.create_group
  group_call a s = ground arith

  user_call :
      (a : NewUser T) (s : Inner T) → (insert_user_if_missing a s).1 ≡ (Users.create_user a s).1
  unfolding insert_user_if_missing Users.create_user
  user_call a s = ground arith

  credential_call :
      (a : NewCredential T) (s : Inner T)
      → (insert_credential_if_missing a s).1 ≡ (Credentials.create_credential a s).1
  unfolding insert_credential_if_missing Credentials.create_credential
  credential_call a s = ground arith

  run_call : (c : Call T) (s t : Inner T) → t ≡ run (λ _ _. false) c s → IsValid s → IsValid t
  run_call c s t e i = rw e (run-IsValid (λ _ _. false) c s i)

  inner_writer-KeptBy : KeptBy (λ s. IsValid s) (inner_writer T)
  unfolding run insert_membership_if_missing insert_user_policy_if_missing
      insert_group_policy_if_missing Groups.add_membership Policies.attach_policy_to_user
      Policies.attach_policy_to_group
  inner_writer-KeptBy = record {
    policy = λ a. record { kept = λ s i. run_call (Calls.create_policy a) s _ (policy_call a s) i };
    group = λ a. record { kept = λ s i. run_call (Calls.create_group a) s _ (group_call a s) i };
    user = λ a. record { kept = λ s i. run_call (Calls.create_user a) s _ (user_call a s) i };
    membership =
        λ a b. record { kept = λ s i. run_call (Calls.add_membership a b) s _ (ground arith) i };
    user_policy = λ a b. record {
      kept = λ s i. run_call (Calls.attach_policy_to_user a b) s _ (ground arith) i;
    };
    group_policy = λ a b. record {
      kept = λ s i. run_call (Calls.attach_policy_to_group a b) s _ (ground arith) i;
    };
    credential = λ a. record {
      kept = λ s i. run_call (Calls.create_credential a) s _ (credential_call a s) i;
    };
  }

  swap_in-IsValid :
      {A : Type 0} (s : Inner T) (r : StoreResult A × Inner T)
      → IsValid s
      → IsValid r.1
      → IsValid (swap_in s r).1
  swap_in-IsValid s (err e, t) i j = i
  swap_in-IsValid s (ok report, t) i j = j

  -- A bootstrap keeps a valid store valid, whether it succeeds or fails.
  pub apply_bootstrap-IsValid :
      (plan : BootstrapPlan T) (s : Inner T) → IsValid s → IsValid (apply_bootstrap plan s).1
  unfolding apply_bootstrap
  apply_bootstrap-IsValid plan s i =
      swap_in-IsValid s (apply_plan (inner_writer T) plan s) i
        ((apply_plan-Keeps (λ s. IsValid s) (inner_writer T) inner_writer-KeptBy plan).kept s i)
