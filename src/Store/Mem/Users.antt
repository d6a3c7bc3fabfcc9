-- ===== src/Store/Mem/Users.antt =====
-- `impl UserStore for MemStore`
use lakefs_auth.Common.{
  ℕ, Bool, true, false, Option, none, some, List, [], ◌∷◌, find, is_none, if◌then◌else◌,
}
use lakefs_auth.Common
use lakefs_auth.Std.Order.{Text, text_ord}
use lakefs_auth.Std.BTreeMap.{BTreeMap, get, insert, remove, values}
use lakefs_auth.Std.Result.{ok, err, ok_or}
use lakefs_auth.Core.Pagination.{PageQuery, PageOf, page_sorted}
use lakefs_auth.Store.Error.{StoreResult, not_found}
use lakefs_auth.Store.Types.{UserRecord, NewUser, eq_option}
use lakefs_auth.Store.Mem.Inner.{Inner, insert_user, cascade_delete_user, checked}

-- `page_map`
unfoldable pub page_map {ℓ} : {V : Type ℓ} → BTreeMap Text V → PageQuery → PageOf V
unfolding page_sorted
page_map m query = page_sorted m query

module _ {T : Type 0} where
  unfoldable pub create_user : NewUser T → Inner T → StoreResult (UserRecord T) × Inner T
  unfolding insert_user
  create_user user s = insert_user user s

  unfoldable pub get_user : Text → Inner T → StoreResult (UserRecord T)
  get_user username s = ok_or (not_found "user" username) (get username s.users)

  unfoldable pub find_user_by_id : ℕ → Inner T → StoreResult (Option (UserRecord T))
  find_user_by_id user_id s = ok (find (λ u. Common.◌==◌ u.user_id user_id) (values s.users))

  unfoldable pub find_user_by_email : Text → Inner T → StoreResult (Option (UserRecord T))
  find_user_by_email email s = ok (find (λ u. eq_option u.email (some email)) (values s.users))

  unfoldable pub find_user_by_external_id : Text → Inner T → StoreResult (Option (UserRecord T))
  find_user_by_external_id external_id s =
      ok (find (λ u. eq_option u.external_id (some external_id)) (values s.users))

  unfoldable pub delete_user : Text → Inner T → StoreResult (Unit {0}) × Inner T
  unfolding cascade_delete_user
  delete_user username s =
      if is_none (get username s.users)
      then (err (not_found "user" username), s)
      else (ok tt, cascade_delete_user username (record s { users = remove username s.users }))

  unfoldable pub list_users : PageQuery → Inner T → StoreResult (PageOf (UserRecord T))
  unfolding page_map
  list_users query s = ok (page_map s.users query)

  -- `get_mut` gives the row in place: the table has the new row under the same key.
  unfoldable pub set_friendly_name : Text → Text → Inner T → StoreResult (Unit {0}) × Inner T
  set_friendly_name username friendly_name s =
      checked s (ok_or (not_found "user" username) (get username s.users)) λ user.
        let row = record user { friendly_name = some friendly_name } in
        (tt, record s { users = insert username row s.users })
