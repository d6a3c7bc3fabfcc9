-- ===== src/Store/Bootstrap/Again.antt =====
-- crates/lakefs-authz/src/store/bootstrap.rs: a plan that is applied again.
use lakefs_auth.Common.{◌≡◌, refl, ap, All, arith}
use lakefs_auth.Std.Result.{ok, err}
use lakefs_auth.Store.Error.{StoreResult}
use lakefs_auth.Store.Types.{BootstrapPlan, BootstrapCounts, BootstrapReport}
use lakefs_auth.Store.Mem.Inner.{Inner}
use lakefs_auth.Store.Mem.Invariant.{IsValid}
use lakefs_auth.Store.Bootstrap.{apply_all, apply_plan, apply_user, apply_credential, report_of}
use lakefs_auth.Store.Bootstrap.Inner.{
  inner_writer, apply_bootstrap, swap_in, insert_policy_if_missing, insert_group_if_missing,
  insert_membership_if_missing, insert_user_policy_if_missing, insert_group_policy_if_missing,
}
use lakefs_auth.Store.Bootstrap.Keeps.{apply_bootstrap-IsValid}
use lakefs_auth.Store.Bootstrap.Grows.{Grows-trans}
use lakefs_auth.Store.Bootstrap.Settles.{
  continue_split, All-stays, apply_all_first, apply_all_again,
}
use lakefs_auth.Store.Bootstrap.Settles.Rows.{
  HasPolicy, HasGroup, HasUser, HasCredential, policy-Settles, group-Settles, user-Settles,
  credential-Settles,
}
use lakefs_auth.Store.Bootstrap.Settles.Links.{
  HasPair, membership-Settles, user_policy-Settles, group_policy-Settles,
}

abbrev pub none_created : BootstrapCounts
none_created = record {
  policies = 0;
  groups = 0;
  users = 0;
  memberships = 0;
  attachments = 0;
  credentials = 0;
}

module _ {T : Type 0} where
  -- Each entry of the plan is in place.
  record IsPlaced (plan : BootstrapPlan T) (s : Inner T) : Type 0 where
    policies : All (λ a. HasPolicy a s) plan.policies
    groups : All (λ a. HasGroup a s) plan.groups
    users : All (λ a. HasUser a s) plan.users
    memberships : All (λ a. HasPair (λ s. s.group_members) a s) plan.memberships
    user_policies : All (λ a. HasPair (λ s. s.user_policies) a s) plan.user_policies
    group_policies : All (λ a. HasPair (λ s. s.group_policies) a s) plan.group_policies
    credentials : All (λ a. HasCredential a s) plan.credentials

  apply_plan-IsPlaced :
      (plan : BootstrapPlan T) (s t : Inner T) (report : BootstrapReport)
      → apply_plan (inner_writer T) plan s ≡ (ok report, t)
      → IsPlaced plan t
  unfolding apply_plan
  apply_plan-IsPlaced plan s t report h =
      let (c1, s1, e1, h1) =
        continue_split _ (apply_all insert_policy_if_missing plan.policies (0, 0) s) report t h in
      let (c2, s2, e2, h2) =
        continue_split _ (apply_all insert_group_if_missing plan.groups (0, 0) s1) report t h1 in
      let (c3, s3, e3, h3) =
        continue_split _ (apply_all (apply_user (inner_writer T)) plan.users (0, 0) s2) report t
          h2 in
      let (c4, s4, e4, h4) =
        continue_split _
          (apply_all (λ e. insert_membership_if_missing e.0 e.1) plan.memberships (0, 0) s3) report
          t h3 in
      let (c5, s5, e5, h5) =
        continue_split _
          (apply_all (λ e. insert_user_policy_if_missing e.0 e.1) plan.user_policies (0, 0) s4)
          report t h4 in
      let (c6, s6, e6, h6) =
        continue_split _
          (apply_all (λ e. insert_group_policy_if_missing e.0 e.1) plan.group_policies c5 s5) report
          t h5 in
      let (c7, s7, e7, h7) =
        continue_split _ (apply_all (apply_credential (inner_writer T)) plan.credentials (0, 0) s6)
          report t h6 in
      let (g1, p1) = apply_all_first _ _ policy-Settles plan.policies _ c1 s s1 e1 in
      let (g2, p2) = apply_all_first _ _ group-Settles plan.groups _ c2 s1 s2 e2 in
      let (g3, p3) = apply_all_first _ _ user-Settles plan.users _ c3 s2 s3 e3 in
      let (g4, p4) = apply_all_first _ _ membership-Settles plan.memberships _ c4 s3 s4 e4 in
      let (g5, p5) = apply_all_first _ _ user_policy-Settles plan.user_policies _ c5 s4 s5 e5 in
      let (g6, p6) = apply_all_first _ _ group_policy-Settles plan.group_policies _ c6 s5 s6 e6 in
      let (g7, p7) = apply_all_first _ _ credential-Settles plan.credentials _ c7 s6 s7 e7 in
      let u6 = g7 in
      let u5 = Grows-trans s5 s6 s7 g6 u6 in
      let u4 = Grows-trans s4 s5 s7 g5 u5 in
      let u3 = Grows-trans s3 s4 s7 g4 u4 in
      let u2 = Grows-trans s2 s3 s7 g3 u3 in
      let u1 = Grows-trans s1 s2 s7 g2 u2 in
      let same : s7 ≡ t = ap (λ r. r.1) h7 in
      rw (← same) (record {
        policies = All-stays _ _ policy-Settles s1 s7 u1 plan.policies p1;
        groups = All-stays _ _ group-Settles s2 s7 u2 plan.groups p2;
        users = All-stays _ _ user-Settles s3 s7 u3 plan.users p3;
        memberships = All-stays _ _ membership-Settles s4 s7 u4 plan.memberships p4;
        user_policies = All-stays _ _ user_policy-Settles s5 s7 u5 plan.user_policies p5;
        group_policies = All-stays _ _ group_policy-Settles s6 s7 u6 plan.group_policies p6;
        credentials = p7;
      })

  apply_plan_again :
      (plan : BootstrapPlan T) (s : Inner T)
      → IsValid s
      → IsPlaced plan s
      → (report : BootstrapReport) × (apply_plan (inner_writer T) plan s ≡ (ok report, s))
        × (report.created ≡ none_created)
  unfolding apply_plan
  apply_plan_again plan s valid p =
      let (c1, e1, z1) =
        apply_all_again _ _ policy-Settles plan.policies (0, 0) s valid p.policies in
      let (c2, e2, z2) = apply_all_again _ _ group-Settles plan.groups (0, 0) s valid p.groups in
      let (c3, e3, z3) = apply_all_again _ _ user-Settles plan.users (0, 0) s valid p.users in
      let (c4, e4, z4) =
        apply_all_again _ _ membership-Settles plan.memberships (0, 0) s valid p.memberships in
      let (c5, e5, z5) =
        apply_all_again _ _ user_policy-Settles plan.user_policies (0, 0) s valid p.user_policies in
      let (c6, e6, z6) =
        apply_all_again _ _ group_policy-Settles plan.group_policies c5 s valid p.group_policies in
      let (c7, e7, z7) =
        apply_all_again _ _ credential-Settles plan.credentials (0, 0) s valid p.credentials in
      (
        report_of c1 c2 c3 c4 c6 c7,
        rw (e1, e2, e3, e4, e5, e6, e7) refl,
        ground (arith, z1, z2, z3, z4, z5, z6, z7),
      )

  swap_in-ok :
      {A : Type 0} (s : Inner T) (r : StoreResult A × Inner T) (a : A)
      → (swap_in s r).0 ≡ ok a
      → r ≡ (ok a, (swap_in s r).1)
  swap_in-ok s (ok b, t) a h = ground (arith, h)
  swap_in-ok s (err e, t) a h = absurd (ground arith)

  -- A plan that was applied to a valid store is applied again without an error: the report counts no
  -- entry as created, and the store stays as it is.
  pub apply_bootstrap-apply_bootstrap :
      (plan : BootstrapPlan T) (s : Inner T) (report : BootstrapReport)
      → IsValid s
      → (apply_bootstrap plan s).0 ≡ ok report
      → (again : BootstrapReport) × (apply_bootstrap plan (apply_bootstrap plan s).1
          ≡ (ok again, (apply_bootstrap plan s).1))
        × (again.created ≡ none_created)
  unfolding apply_bootstrap
  apply_bootstrap-apply_bootstrap plan s report valid h =
      let after = (apply_bootstrap plan s).1 in
      let run = swap_in-ok s (apply_plan (inner_writer T) plan s) report h in
      let placed = apply_plan-IsPlaced plan s after report run in
      let (again, rerun, nothing) =
        apply_plan_again plan after (apply_bootstrap-IsValid plan s valid) placed in
      (again, ap (swap_in after) rerun, nothing)
