-- ===== src/Examples.antt =====
-- Tests and applications of the theorems, on one small plant.
pub mod Plant
pub mod Alerting
pub mod Fleet
pub mod Platform
pub mod Accounts
pub mod Incidents
pub mod Charts
pub mod Seeding
pub mod Beats
pub mod Remote
pub mod Writing
