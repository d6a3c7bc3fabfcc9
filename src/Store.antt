-- ===== src/Store.antt =====
-- crates/lakefs-authz/src/store: the storage contract and the store in memory.
pub mod Types
pub mod Error
pub mod Mem
pub mod Bootstrap
