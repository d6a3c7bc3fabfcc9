-- ===== src/Core.antt =====
-- crates/lakefs-auth-core: what both servers share.
pub mod Error
pub mod Model
pub mod Text
pub mod Tasks
pub mod Auth
pub mod Crypto
pub mod Catalog
pub mod Validate
pub mod Pagination
