-- ===== src/Store/Mem/Calls.antt =====
-- The calls of the store that hold the write lock from their start, one constructor for each, and the
-- steps that they make. Calls of several threads are a sequence of such steps, since each holds the
-- lock; `apply_bootstrap`, which only takes it to swap in its copy, is none of them.
use lakefs_auth.Common.{Bool, List, [], ◌∷◌}
use lakefs_auth.Std.Order.{Text}
use lakefs_auth.Store.Types.{NewUser, NewGroup, NewPolicy, NewCredential}
use lakefs_auth.Store.Mem.Inner.{Inner}
use lakefs_auth.Store.Mem.Users
use lakefs_auth.Store.Mem.Groups
use lakefs_auth.Store.Mem.Policies
use lakefs_auth.Store.Mem.Credentials

pub data Call (T : Type 0) : Type 0 where
  create_user : NewUser T → Call T
  delete_user : Text → Call T
  set_friendly_name : Text → Text → Call T
  create_group : NewGroup T → Call T
  delete_group : Text → Call T
  add_membership : Text → Text → Call T
  remove_membership : Text → Text → Call T
  create_policy : NewPolicy T → Call T
  update_policy : NewPolicy T → Call T
  delete_policy : Text → Call T
  attach_policy_to_user : Text → Text → Call T
  detach_policy_from_user : Text → Text → Call T
  attach_policy_to_group : Text → Text → Call T
  detach_policy_from_group : Text → Text → Call T
  create_credential : NewCredential T → Call T
  delete_credential : Text → Text → Call T
  create_external_principal : Text → Text → Call T
  delete_external_principal : Text → Text → Call T
  claim_token_id : Text → T → Call T
  delete_expired_token_ids : T → Call T

-- The state after a call, whether it succeeds or not. `later a b` is jiff's `a > b`.
unfoldable pub run : {T : Type 0} → (T → T → Bool) → Call T → Inner T → Inner T
run later (create_user a) s = (Users.create_user a s).1
run later (delete_user a) s = (Users.delete_user a s).1
run later (set_friendly_name a b) s = (Users.set_friendly_name a b s).1
run later (create_group a) s = (Groups.create_group a s).1
run later (delete_group a) s = (Groups.delete_group a s).1
run later (add_membership a b) s = (Groups.add_membership a b s).1
run later (remove_membership a b) s = (Groups.remove_membership a b s).1
run later (create_policy a) s = (Policies.create_policy a s).1
run later (update_policy a) s = (Policies.update_policy a s).1
run later (delete_policy a) s = (Policies.delete_policy a s).1
run later (attach_policy_to_user a b) s = (Policies.attach_policy_to_user a b s).1
run later (detach_policy_from_user a b) s = (Policies.detach_policy_from_user a b s).1
run later (attach_policy_to_group a b) s = (Policies.attach_policy_to_group a b s).1
run later (detach_policy_from_group a b) s = (Policies.detach_policy_from_group a b s).1
run later (create_credential a) s = (Credentials.create_credential a s).1
run later (delete_credential a b) s = (Credentials.delete_credential a b s).1
run later (create_external_principal a b) s = (Credentials.create_external_principal a b s).1
run later (delete_external_principal a b) s = (Credentials.delete_external_principal a b s).1
run later (claim_token_id a b) s = (Credentials.claim_token_id a b s).1
run later (delete_expired_token_ids a) s = (Credentials.delete_expired_token_ids later a s).1

unfoldable pub run_all : {T : Type 0} → (T → T → Bool) → List (Call T) → Inner T → Inner T
run_all later [] s = s
run_all later (c ∷ cs) s = run_all later cs (run later c s)
