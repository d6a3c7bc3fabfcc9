-- ===== src/Tests.antt =====
-- The theorems at concrete values.
pub mod Paging
pub mod Sessions
pub mod Tables
pub mod Logins
pub mod Requests
pub mod Cookies
pub mod Access
pub mod Browsing
pub mod Provisioning
pub mod Policies
pub mod Bootstraps
pub mod Pages
pub mod Catalogs
pub mod Routes
pub mod Lookups
pub mod Exchanges
