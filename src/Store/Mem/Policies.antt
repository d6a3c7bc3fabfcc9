-- ===== src/Store/Mem/Policies.antt =====
-- `impl PolicyStore for MemStore` and `impl AttachmentStore for MemStore`
use lakefs_auth.Common.{Bool, not, List, [], map, filter, is_none, if◌then◌else◌}
use lakefs_auth.Std.Order.{Text, text_ord, pair_ord, ◌==◌}
use lakefs_auth.Std.BTreeMap.{BTreeSet, get, contains_key, insert, remove, keys, extend}
use lakefs_auth.Std.Result.{ok, err, ok_or, ◌>>◌}
use lakefs_auth.Core.Pagination.{PageQuery, PageOf, page_sorted}
use lakefs_auth.Store.Error.{StoreResult, not_found}
use lakefs_auth.Store.Types.{PolicyRecord, NewPolicy}
use lakefs_auth.Store.Mem.Inner.{
  Inner, insert_policy, cascade_delete_policy, checked, require_user, require_group, require_policy,
  policies_named,
}
use lakefs_auth.Store.Mem.Users.{page_map}

-- The second parts of the pairs whose first part passes: policy names.
abbrev pub names_of : (Text → Bool) → BTreeSet (Text × Text) → List Text
names_of p set = map (λ k. k.1) (filter (λ k. p k.0) (keys set))

module _ {T : Type 0} where
  unfoldable pub create_policy : NewPolicy T → Inner T → StoreResult (PolicyRecord T) × Inner T
  unfolding insert_policy
  create_policy policy s = insert_policy policy s

  unfoldable pub get_policy : Text → Inner T → StoreResult (PolicyRecord T)
  get_policy name s = ok_or (not_found "policy" name) (get name s.policies)

  unfoldable pub update_policy : NewPolicy T → Inner T → StoreResult (PolicyRecord T) × Inner T
  update_policy policy s =
      checked s (ok_or (not_found "policy" policy.name) (get policy.name s.policies)) λ slot.
        let row = record slot {
          creation_date = policy.creation_date;
          statement = policy.statement;
          acl = policy.acl;
        } in
        (row, record s { policies = insert policy.name row s.policies })

  unfoldable pub delete_policy : Text → Inner T → StoreResult (Unit {0}) × Inner T
  unfolding cascade_delete_policy
  delete_policy name s =
      if is_none (get name s.policies)
      then (err (not_found "policy" name), s)
      else (ok tt, cascade_delete_policy name (record s { policies = remove name s.policies }))

  unfoldable pub list_policies : PageQuery → Inner T → StoreResult (PageOf (PolicyRecord T))
  unfolding page_map
  list_policies query s = ok (page_map s.policies query)

  unfoldable pub attach_policy_to_user : Text → Text → Inner T → StoreResult (Unit {0}) × Inner T
  unfolding require_user require_policy
  attach_policy_to_user username policy s =
      checked s (require_user s username >> require_policy s policy)
        λ _. (tt, record s { user_policies = insert (username, policy) tt s.user_policies })

  unfoldable pub detach_policy_from_user : Text → Text → Inner T → StoreResult (Unit {0}) × Inner T
  detach_policy_from_user username policy s =
      if not (contains_key (username, policy) s.user_policies)
      then (err (not_found "policy attachment" policy), s)
      else (ok tt, record s { user_policies = remove (username, policy) s.user_policies })

  unfoldable pub list_user_policies :
      Text → PageQuery → Inner T → StoreResult (PageOf (PolicyRecord T))
  unfolding policies_named page_sorted require_user
  list_user_policies username query s = do
    require_user s username
    ok (page_sorted (policies_named s (names_of (λ user. user == username) s.user_policies)) query)

  -- The groups of a user, and the names of the policies that hold for it, as sets.
  unfoldable pub groups_of : Text → Inner T → BTreeSet Text
  unfolding extend
  groups_of username s =
      extend [] (map (λ k. k.0) (filter (λ k. k.1 == username) (keys s.group_members)))

  unfoldable pub effective_names : Text → Inner T → BTreeSet Text
  unfolding groups_of
  effective_names username s =
      extend (extend [] (names_of (λ user. user == username) s.user_policies))
        (names_of (λ group. contains_key group (groups_of username s)) s.group_policies)

  unfoldable pub list_effective_user_policies :
      Text → PageQuery → Inner T → StoreResult (PageOf (PolicyRecord T))
  unfolding effective_names policies_named page_sorted require_user
  list_effective_user_policies username query s = do
    require_user s username
    ok (page_sorted (policies_named s (keys (effective_names username s))) query)

  unfoldable pub attach_policy_to_group : Text → Text → Inner T → StoreResult (Unit {0}) × Inner T
  unfolding require_group require_policy
  attach_policy_to_group group_id policy s =
      checked s (require_group s group_id >> require_policy s policy)
        λ _. (tt, record s { group_policies = insert (group_id, policy) tt s.group_policies })

  unfoldable pub detach_policy_from_group : Text → Text → Inner T → StoreResult (Unit {0}) × Inner T
  detach_policy_from_group group_id policy s =
      if not (contains_key (group_id, policy) s.group_policies)
      then (err (not_found "policy attachment" policy), s)
      else (ok tt, record s { group_policies = remove (group_id, policy) s.group_policies })

  unfoldable pub list_group_policies :
      Text → PageQuery → Inner T → StoreResult (PageOf (PolicyRecord T))
  unfolding policies_named page_sorted require_group
  list_group_policies group_id query s = do
    require_group s group_id
    ok (
        page_sorted (policies_named s (names_of (λ group. group == group_id) s.group_policies))
          query)
