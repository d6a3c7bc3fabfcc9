-- ===== src/Cleanup.antt =====
-- crates/lakefs-authz/src/cleanup.rs: the removal of expired token ids, over the store in memory.
-- `later a b` is jiff's `a > b`.
use lakefs_auth.Common.{ℕ, Bool, List, [], ◌∷◌, if◌then◌else◌}
use lakefs_auth.Common
use lakefs_auth.Store.Mem.Inner.{Inner}
use lakefs_auth.Store.Mem.Credentials

module _ {T : Type 0} (later : T → T → Bool) where
  -- The loop, by what `Timestamp::now()` answers after each tick. What a call answers is only logged
  -- about.
  unfoldable pub removals : List T → Inner T → Inner T
  unfolding Credentials.delete_expired_token_ids
  removals [] s = s
  removals (now ∷ ticks) s = removals ticks (Credentials.delete_expired_token_ids later now s).1

  -- The first tick fires immediately.
  abbrev pub after_first : List T → Inner T → Inner T
  after_first [] s = s
  after_first (first ∷ ticks) s = removals ticks s

  -- A zero interval switches the cleanup off. An interval is in nanoseconds.
  unfoldable pub cleanup_token_ids : ℕ → List T → Inner T → Inner T
  unfolding removals
  cleanup_token_ids interval ticks s = if Common.◌==◌ interval 0 then s else after_first ticks s
