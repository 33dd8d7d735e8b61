-- ===== src/Alerts.antt =====
-- apps/alerts: rules, alerts, notification channels and the notification inbox.
pub mod Models
pub mod Services
pub mod Tasks
pub mod Views
pub mod Inbox
pub mod Backstop
pub mod Incidents
pub mod Rules
