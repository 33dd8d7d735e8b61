-- ===== src/Alerts/Incidents.antt =====
-- What the alert engine of apps/alerts/services.py promises, without its table: for each rule and
-- device at most one open incident, known by its id.
pub mod Slots
pub mod Table
pub mod Raising
pub mod Closing
pub mod Refines
