-- ===== src/Telemetry.antt =====
-- apps/telemetry: sensors, readings, ingestion, retention and the chart API.
pub mod Models
pub mod Services
pub mod Tasks
pub mod Naming
pub mod Redelivery
pub mod Rounds
pub mod Stored
pub mod Returns
pub mod Buckets
pub mod Purge
pub mod Views
pub mod Batches
pub mod Aggregate
