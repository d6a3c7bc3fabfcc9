-- ===== src/Core/Crypto.antt =====
-- crates/lakefs-auth-core/src/crypto: sealed secrets and generated keys.
pub mod SecretBox
pub mod Keygen
