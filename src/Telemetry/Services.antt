-- ===== src/Telemetry/Services.antt =====
-- apps/telemetry/services.py: ingestion, the single write path of sensor data.
pub mod Coerce
pub mod Ingest
pub mod Liveness
