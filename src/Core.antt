-- ===== src/Core.antt =====
-- apps/core: model building blocks, the audit trail, the real-time seam, permissions.
pub mod Json
pub mod Columns
pub mod Models
pub mod Codec
pub mod Realtime
pub mod Services
pub mod SoftDelete
pub mod Retention
pub mod Permissions
pub mod Scope
pub mod Middleware
pub mod Views
