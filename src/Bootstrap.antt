-- ===== src/Bootstrap.antt =====
-- crates/lakefs-authz/src/bootstrap.rs: the bootstrap file.
pub mod File
pub mod Plan
pub mod Checked
