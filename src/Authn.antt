-- ===== src/Authn.antt =====
-- crates/lakefs-authn: the authentication server.
pub mod Gob
pub mod SecureCookie
pub mod Session
pub mod Claims
pub mod Redirect
pub mod Oidc
pub mod Browser
pub mod Sts
pub mod Provision
