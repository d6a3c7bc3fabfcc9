-- ===== src/Store/Bootstrap.antt =====
-- crates/lakefs-authz/src/store/bootstrap.rs: the bootstrap loop, written once for every store. A
-- writer of type `W` is the state that its inserts take and leave, also when they fail.
pub mod Inner
pub mod Keeps
pub mod Counts
pub mod Grows
pub mod Settles
pub mod Again
use lakefs_auth.Common.{
  ℕ, ◌+◌, ◌%◌, ◌^◌, Bool, true, false, not, ◌||◌, Option, none, some, List, [], ◌∷◌, is_none,
  if◌then◌else◌,
}
use lakefs_auth.Std.Order.{Text, text_ord, ◌==◌}
use lakefs_auth.Std.Result.{Result, ok, err}
use lakefs_auth.Store.Error.{StoreError, StoreResult, wrong_identity}
use lakefs_auth.Store.Types.{
  UserRecord, NewUser, NewGroup, NewPolicy, CredentialRecord, NewCredential, BootstrapPlan,
  BootstrapCounts, BootstrapReport, same_identity_as,
}

-- What a method does to the writer that it borrows mutably.
abbrev pub Write : Type 0 → Type 0 → Type 0
Write W A = W → StoreResult A × W

pub record BootstrapWriter (T W : Type 0) : Type 0 where
  pub insert_policy_if_missing : NewPolicy T → Write W Bool
  pub insert_group_if_missing : NewGroup T → Write W Bool
  pub insert_user_if_missing : NewUser T → Write W (Option (UserRecord T))
  pub insert_membership_if_missing : Text → Text → Write W Bool
  pub insert_user_policy_if_missing : Text → Text → Write W Bool
  pub insert_group_policy_if_missing : Text → Text → Write W Bool
  pub insert_credential_if_missing : NewCredential T → Write W (Option (CredentialRecord T))

-- `?` after a call: an error ends the method, with what the calls have written.
infixl 5 ◌>>=◌
abbrev pub continue : {A B W : Type 0} → (A → Write W B) → StoreResult A × W → StoreResult B × W
continue f (err e, w) = (err e, w)
continue f (ok a, w) = f a w

abbrev pub ◌>>=◌ : {A B W : Type 0} → Write W A → (A → Write W B) → Write W B
◌>>=◌ m f w = continue f (m w)

abbrev pub pure : {A W : Type 0} → A → Write W A
pure a w = (ok a, w)

-- The entries of one kind that were created, and those that were skipped: two `u32`.
abbrev pub Tally : Type 0
Tally = ℕ × ℕ

unfoldable pub tally : Tally → Bool → Tally
tally (created, skipped) was_created =
    if was_created then ((created + 1) % 2 ^ 32, skipped) else (created, (skipped + 1) % 2 ^ 32)

-- One of the loops of `apply_plan`.
unfoldable pub apply_all : {A W : Type 0} → (A → Write W Bool) → List A → Tally → Write W Tally
unfolding tally
apply_all step [] counts = pure counts
apply_all step (a ∷ entries) counts = do done ← step a; apply_all step entries (tally counts done)

-- An entry that was there already is skipped if it is the same one.
abbrev pub checked_identity : {R W : Type 0} → (R → Bool) → StoreError → Option R → Write W Bool
checked_identity same e none w = (ok true, w)
checked_identity same e (some existing) w = (if same existing then ok false else err e, w)

abbrev pub report_of : Tally → Tally → Tally → Tally → Tally → Tally → BootstrapReport
report_of policies groups users memberships attachments credentials =
    let counts : (Tally → ℕ) → BootstrapCounts = λ side. record {
      policies = side policies;
      groups = side groups;
      users = side users;
      memberships = side memberships;
      attachments = side attachments;
      credentials = side credentials;
    } in
    record { created = counts (λ t. t.0); skipped = counts (λ t. t.1) }

module _ {T W : Type 0} (writer : BootstrapWriter T W) where
  unfoldable pub apply_user : NewUser T → Write W Bool
  unfolding same_identity_as
  apply_user user = do
    existing ← writer.insert_user_if_missing user
    checked_identity (same_identity_as user) (wrong_identity "user" user.username) existing

  unfoldable pub apply_credential : NewCredential T → Write W Bool
  apply_credential credential = do
    existing ← writer.insert_credential_if_missing credential
    checked_identity (λ c. c.username == credential.username)
        (wrong_identity "credentials" credential.access_key_id) existing

  unfoldable pub apply_plan : BootstrapPlan T → Write W BootstrapReport
  unfolding apply_all apply_user apply_credential
  apply_plan plan = do
    policies ← apply_all writer.insert_policy_if_missing plan.policies (0, 0)
    groups ← apply_all writer.insert_group_if_missing plan.groups (0, 0)
    users ← apply_all apply_user plan.users (0, 0)
    memberships ←
        apply_all (λ e. writer.insert_membership_if_missing e.0 e.1) plan.memberships (0, 0)
    for_users ←
        apply_all (λ e. writer.insert_user_policy_if_missing e.0 e.1) plan.user_policies (0, 0)
    attachments ←
        apply_all (λ e. writer.insert_group_policy_if_missing e.0 e.1) plan.group_policies for_users
    credentials ← apply_all apply_credential plan.credentials (0, 0)
    pure (report_of policies groups users memberships attachments credentials)
