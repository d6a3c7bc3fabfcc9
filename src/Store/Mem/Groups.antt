-- ===== src/Store/Mem/Groups.antt =====
-- `impl GroupStore for MemStore` and `impl MembershipStore for MemStore`
use lakefs_auth.Common.{not, List, filter, filter_map, is_none, if◌then◌else◌}
use lakefs_auth.Std.Order.{Text, text_ord, pair_ord, ◌==◌}
use lakefs_auth.Std.BTreeMap.{get, contains_key, insert, remove, keys}
use lakefs_auth.Std.Result.{ok, err, ok_or, ◌>>◌}
use lakefs_auth.Core.Pagination.{PageQuery, PageOf, page_sorted}
use lakefs_auth.Store.Error.{StoreResult, not_found}
use lakefs_auth.Store.Types.{UserRecord, GroupRecord, NewGroup}
use lakefs_auth.Store.Mem.Inner.{
  Inner, insert_group, cascade_delete_group, checked, require_user, require_group,
}
use lakefs_auth.Store.Mem.Users.{page_map}
use mathlib.Core.Option

module _ {T : Type 0} where
  unfoldable pub create_group : NewGroup T → Inner T → StoreResult (GroupRecord T) × Inner T
  unfolding insert_group
  create_group group s = insert_group group s

  unfoldable pub get_group : Text → Inner T → StoreResult (GroupRecord T)
  get_group group_id s = ok_or (not_found "group" group_id) (get group_id s.groups)

  unfoldable pub delete_group : Text → Inner T → StoreResult (Unit {0}) × Inner T
  unfolding cascade_delete_group
  delete_group group_id s =
      if is_none (get group_id s.groups)
      then (err (not_found "group" group_id), s)
      else (ok tt, cascade_delete_group group_id (record s { groups = remove group_id s.groups }))

  unfoldable pub list_groups : PageQuery → Inner T → StoreResult (PageOf (GroupRecord T))
  unfolding page_map
  list_groups query s = ok (page_map s.groups query)

  unfoldable pub add_membership : Text → Text → Inner T → StoreResult (Unit {0}) × Inner T
  unfolding require_group require_user
  add_membership group_id username s =
      checked s (require_group s group_id >> require_user s username)
        λ _. (tt, record s { group_members = insert (group_id, username) tt s.group_members })

  unfoldable pub remove_membership : Text → Text → Inner T → StoreResult (Unit {0}) × Inner T
  remove_membership group_id username s =
      if not (contains_key (group_id, username) s.group_members)
      then (err (not_found "group membership" username), s)
      else (ok tt, record s { group_members = remove (group_id, username) s.group_members })

  -- The rows of `list_group_members` and `list_user_groups`, in the order of the set.
  unfoldable pub group_member_rows : Text → Inner T → List (Text × UserRecord T)
  group_member_rows group_id s =
      filter_map (λ k. Option.map (λ user. (k.1, user)) (get k.1 s.users))
        (filter (λ k. k.0 == group_id) (keys s.group_members))

  unfoldable pub list_group_members :
      Text → PageQuery → Inner T → StoreResult (PageOf (UserRecord T))
  unfolding group_member_rows page_sorted require_group
  list_group_members group_id query s = do
    require_group s group_id
    ok (page_sorted (group_member_rows group_id s) query)

  unfoldable pub user_group_rows : Text → Inner T → List (Text × GroupRecord T)
  user_group_rows username s =
      filter_map (λ k. Option.map (λ group. (k.0, group)) (get k.0 s.groups))
        (filter (λ k. k.1 == username) (keys s.group_members))

  unfoldable pub list_user_groups :
      Text → PageQuery → Inner T → StoreResult (PageOf (GroupRecord T))
  unfolding user_group_rows page_sorted require_user
  list_user_groups username query s = do
    require_user s username
    ok (page_sorted (user_group_rows username s) query)
