-- ===== src/Accounts.antt =====
-- apps/accounts: tenants, users, roles and per-device grants.
pub mod Models
pub mod Access
pub mod Views
pub mod Managers
pub mod Tenants
pub mod Registration
pub mod Grants
pub mod Granting
