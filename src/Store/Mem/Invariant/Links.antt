-- ===== src/Store/Mem/Invariant/Links.antt =====
-- Memberships and attachments, and what is deleted or claimed by its own key, keep the order of the
-- tables and the references.
use lakefs_auth.Common.{arith}
use lakefs_auth.Std.Order.{Text, text_ord, pair_ord}
use lakefs_auth.Std.BTreeMap.Laws.{get-insert, get-remove, insert-IsSorted, remove-IsSorted}
use lakefs_auth.Store.Mem.Inner.{Inner}
use lakefs_auth.Store.Mem.Groups.{add_membership, remove_membership}
use lakefs_auth.Store.Mem.Policies.{
  attach_policy_to_user, detach_policy_from_user, attach_policy_to_group, detach_policy_from_group,
}
use lakefs_auth.Store.Mem.Invariant.{IsOrdered, IsKeyed, IsReferenced, same_tables-IsKeyed}

module _ {T : Type 0} (group_id username : Text) (s : Inner T) where
  pub add_membership-IsOrdered : IsOrdered s → IsOrdered (add_membership group_id username s).1
  unfolding add_membership
  add_membership-IsOrdered o =
      ground (arith, insert-IsSorted (group_id, username) tt s.group_members)

  pub add_membership-IsKeyed : IsKeyed s → IsKeyed (add_membership group_id username s).1
  unfolding add_membership
  add_membership-IsKeyed r = same_tables-IsKeyed s _ (ground arith) r

  pub add_membership-IsReferenced :
      IsReferenced s → IsReferenced (add_membership group_id username s).1
  unfolding add_membership
  add_membership-IsReferenced r = record {
    group_members = λ g u h. ground (
      arith,
      r.group_members g u,
      get-insert (g, u) (group_id, username) tt s.group_members,
      text_ord.eq_of group_id g,
      text_ord.eq_of username u,
    );
    user_policies = λ u p h. ground (arith, r.user_policies u p);
    group_policies = λ g p h. ground (arith, r.group_policies g p);
    credentials = λ k c h. ground (arith, r.credentials k c);
    external_principals = λ k p h. ground (arith, r.external_principals k p);
  }

  pub remove_membership-IsOrdered :
      IsOrdered s → IsOrdered (remove_membership group_id username s).1
  unfolding remove_membership
  remove_membership-IsOrdered o =
      ground (arith, remove-IsSorted (group_id, username) s.group_members)

  pub remove_membership-IsKeyed : IsKeyed s → IsKeyed (remove_membership group_id username s).1
  unfolding remove_membership
  remove_membership-IsKeyed r = same_tables-IsKeyed s _ (ground arith) r

  pub remove_membership-IsReferenced :
      IsOrdered s → IsReferenced s → IsReferenced (remove_membership group_id username s).1
  unfolding remove_membership
  remove_membership-IsReferenced o r = record {
    group_members = λ g u h. ground (
      arith,
      r.group_members g u,
      get-remove (g, u) (group_id, username) s.group_members o.group_members,
    );
    user_policies = λ u p h. ground (arith, r.user_policies u p);
    group_policies = λ g p h. ground (arith, r.group_policies g p);
    credentials = λ k c h. ground (arith, r.credentials k c);
    external_principals = λ k p h. ground (arith, r.external_principals k p);
  }

module _ {T : Type 0} (username policy : Text) (s : Inner T) where
  pub attach_policy_to_user-IsOrdered :
      IsOrdered s → IsOrdered (attach_policy_to_user username policy s).1
  unfolding attach_policy_to_user
  attach_policy_to_user-IsOrdered o =
      ground (arith, insert-IsSorted (username, policy) tt s.user_policies)

  pub attach_policy_to_user-IsKeyed :
      IsKeyed s → IsKeyed (attach_policy_to_user username policy s).1
  unfolding attach_policy_to_user
  attach_policy_to_user-IsKeyed r = same_tables-IsKeyed s _ (ground arith) r

  pub attach_policy_to_user-IsReferenced :
      IsReferenced s → IsReferenced (attach_policy_to_user username policy s).1
  unfolding attach_policy_to_user
  attach_policy_to_user-IsReferenced r = record {
    group_members = λ g u h. ground (arith, r.group_members g u);
    user_policies = λ u p h. ground (
      arith,
      r.user_policies u p,
      get-insert (u, p) (username, policy) tt s.user_policies,
      text_ord.eq_of username u,
      text_ord.eq_of policy p,
    );
    group_policies = λ g p h. ground (arith, r.group_policies g p);
    credentials = λ k c h. ground (arith, r.credentials k c);
    external_principals = λ k p h. ground (arith, r.external_principals k p);
  }

  pub detach_policy_from_user-IsOrdered :
      IsOrdered s → IsOrdered (detach_policy_from_user username policy s).1
  unfolding detach_policy_from_user
  detach_policy_from_user-IsOrdered o =
      ground (arith, remove-IsSorted (username, policy) s.user_policies)

  pub detach_policy_from_user-IsKeyed :
      IsKeyed s → IsKeyed (detach_policy_from_user username policy s).1
  unfolding detach_policy_from_user
  detach_policy_from_user-IsKeyed r = same_tables-IsKeyed s _ (ground arith) r

  pub detach_policy_from_user-IsReferenced :
      IsOrdered s → IsReferenced s → IsReferenced (detach_policy_from_user username policy s).1
  unfolding detach_policy_from_user
  detach_policy_from_user-IsReferenced o r = record {
    group_members = λ g u h. ground (arith, r.group_members g u);
    user_policies = λ u p h. ground (
      arith,
      r.user_policies u p,
      get-remove (u, p) (username, policy) s.user_policies o.user_policies,
    );
    group_policies = λ g p h. ground (arith, r.group_policies g p);
    credentials = λ k c h. ground (arith, r.credentials k c);
    external_principals = λ k p h. ground (arith, r.external_principals k p);
  }

module _ {T : Type 0} (group_id policy : Text) (s : Inner T) where
  pub attach_policy_to_group-IsOrdered :
      IsOrdered s → IsOrdered (attach_policy_to_group group_id policy s).1
  unfolding attach_policy_to_group
  attach_policy_to_group-IsOrdered o =
      ground (arith, insert-IsSorted (group_id, policy) tt s.group_policies)

  pub attach_policy_to_group-IsKeyed :
      IsKeyed s → IsKeyed (attach_policy_to_group group_id policy s).1
  unfolding attach_policy_to_group
  attach_policy_to_group-IsKeyed r = same_tables-IsKeyed s _ (ground arith) r

  pub attach_policy_to_group-IsReferenced :
      IsReferenced s → IsReferenced (attach_policy_to_group group_id policy s).1
  unfolding attach_policy_to_group
  attach_policy_to_group-IsReferenced r = record {
    group_members = λ g u h. ground (arith, r.group_members g u);
    user_policies = λ u p h. ground (arith, r.user_policies u p);
    group_policies = λ g p h. ground (
      arith,
      r.group_policies g p,
      get-insert (g, p) (group_id, policy) tt s.group_policies,
      text_ord.eq_of group_id g,
      text_ord.eq_of policy p,
    );
    credentials = λ k c h. ground (arith, r.credentials k c);
    external_principals = λ k p h. ground (arith, r.external_principals k p);
  }

  pub detach_policy_from_group-IsOrdered :
      IsOrdered s → IsOrdered (detach_policy_from_group group_id policy s).1
  unfolding detach_policy_from_group
  detach_policy_from_group-IsOrdered o =
      ground (arith, remove-IsSorted (group_id, policy) s.group_policies)

  pub detach_policy_from_group-IsKeyed :
      IsKeyed s → IsKeyed (detach_policy_from_group group_id policy s).1
  unfolding detach_policy_from_group
  detach_policy_from_group-IsKeyed r = same_tables-IsKeyed s _ (ground arith) r

  pub detach_policy_from_group-IsReferenced :
      IsOrdered s → IsReferenced s → IsReferenced (detach_policy_from_group group_id policy s).1
  unfolding detach_policy_from_group
  detach_policy_from_group-IsReferenced o r = record {
    group_members = λ g u h. ground (arith, r.group_members g u);
    user_policies = λ u p h. ground (arith, r.user_policies u p);
    group_policies = λ g p h. ground (
      arith,
      r.group_policies g p,
      get-remove (g, p) (group_id, policy) s.group_policies o.group_policies,
    );
    credentials = λ k c h. ground (arith, r.credentials k c);
    external_principals = λ k p h. ground (arith, r.external_principals k p);
  }
