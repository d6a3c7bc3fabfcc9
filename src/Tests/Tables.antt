-- ===== src/Tests/Tables.antt =====
-- The store in memory, at concrete values.
use lakefs_auth.Common.{◌≡◌, refl, true, none, some, List, [], ◌∷◌, arith, ℕ, ltb, Bool}
use lakefs_auth.Std.Order.{cmp_text, text_ord}
use lakefs_auth.Std.Str.{codes}
use lakefs_auth.Store.Types.{NewUser, NewGroup, BootstrapPlan, BootstrapReport, same_identity_as}
use lakefs_auth.Store.Mem.Inner.{Inner, default}
use lakefs_auth.Store.Mem.Users.{create_user, delete_user}
use lakefs_auth.Std.BTreeMap.{get, contains_key, insert}
use lakefs_auth.Store.Mem.Groups.{create_group, add_membership}
use lakefs_auth.Store.Mem.Calls
use lakefs_auth.Store.Mem.Calls.{Call, run, run_all}
use lakefs_auth.Store.Mem.Policies.{effective_names}
use lakefs_auth.Store.Mem.Effective.{contains_key-effective_names}
use lakefs_auth.Store.Mem.Effects.{delete_user-IsForgotten, IsForgotten}
use lakefs_auth.Store.Mem.Invariant.{IsValid}
use lakefs_auth.Store.Mem.Invariant.Reach.{history-IsValid, default-IsValid}
use lakefs_auth.Store.Bootstrap.{apply_plan, apply_all, apply_user, tally, report_of}
use lakefs_auth.Store.Bootstrap.Inner.{
  inner_writer, apply_bootstrap, insert_group_if_missing, insert_user_if_missing,
  insert_membership_if_missing,
}
use lakefs_auth.Store.Bootstrap.Keeps.{apply_bootstrap-IsValid}
use lakefs_auth.Store.Bootstrap.Counts.{apply_plan-IsCounted, IsCounted}

abbrev alice : NewUser ℕ
alice = record {
  username = codes "alice";
  creation_date = 1;
  friendly_name = none;
  email = some (codes "a@b");
  source = none;
  external_id = none;
  encrypted_password = none;
}

abbrev team : NewGroup ℕ
team = record { id = codes "team"; description = none; creation_date = 2 }

abbrev later : ℕ → ℕ → Bool
later a b = ltb b a

abbrev calls : List (Call ℕ)
calls =
    Calls.create_user alice
    ∷ Calls.create_group team
    ∷ Calls.add_membership team.id alice.username
    ∷ []

abbrev members : Inner ℕ
members = run_all later calls (default ℕ)

history-IsValid_example : IsValid members
history-IsValid_example = history-IsValid later calls

members-IsValid : IsValid members
members-IsValid = history-IsValid later calls

delete_user-IsForgotten_example : IsForgotten alice.username (delete_user alice.username members).1
unfolding run_all run delete_user create_user create_group add_membership get insert cmp_text
delete_user-IsForgotten_example =
    delete_user-IsForgotten alice.username members members-IsValid.ordered refl

abbrev plan : BootstrapPlan ℕ
plan = record {
  policies = [];
  groups = team ∷ [];
  users = alice ∷ alice ∷ [];
  memberships = (team.id, alice.username) ∷ [];
  user_policies = [];
  group_policies = [];
  credentials = [];
}

apply_bootstrap-IsValid_example : IsValid (apply_bootstrap plan (default ℕ)).1
apply_bootstrap-IsValid_example = apply_bootstrap-IsValid plan (default ℕ) (default-IsValid ℕ)

abbrev report : BootstrapReport
report = report_of (0, 0) (1, 0) (1, 1) (1, 0) (0, 0) (0, 0)

apply_plan-IsCounted_example : IsCounted plan report
apply_plan-IsCounted_example =
    apply_plan-IsCounted (inner_writer ℕ) plan (default ℕ) report
      (omega arith, omega arith, omega arith, omega arith, omega arith, omega arith)
      (unfold apply_plan apply_all apply_user tally same_identity_as insert_group_if_missing
          insert_user_if_missing insert_membership_if_missing get insert cmp_text in
        refl)

-- A policy of a group, and a member of the group.
abbrev shared : Inner ℕ
shared = record (default ℕ) {
  group_members = ((team.id, alice.username), tt) ∷ [];
  group_policies = ((team.id, codes "read"), tt) ∷ [];
}

contains_key-effective_names_example :
    contains_key (codes "read") (effective_names alice.username shared) ≡ true
unfolding get cmp_text
contains_key-effective_names_example =
    contains_key-effective_names (codes "read") alice.username shared
