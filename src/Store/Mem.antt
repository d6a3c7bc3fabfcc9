-- ===== src/Store/Mem.antt =====
-- crates/lakefs-authz/src/store/mem.rs: the store in memory. A method that takes the write lock
-- is a function on the state; one that reads gives only its result. The lock makes each method one
-- step, but for `apply_bootstrap`, which runs its plan on a copy without the lock; `T` stands for jiff's `Timestamp`.
pub mod Inner
pub mod Users
pub mod Groups
pub mod Policies
pub mod Credentials
pub mod Invariant
pub mod Calls
pub mod Effects
pub mod Effective
