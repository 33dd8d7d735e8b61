-- ===== src/Alerts/Services.antt =====
-- apps/alerts/services.py: the alert engine and the notification fan-out.
pub mod Notify
pub mod Frames
pub mod Raise
pub mod Cases
pub mod Keys
pub mod Dedup
pub mod Twice
pub mod Lifecycle
pub mod Evaluate
pub mod Verdict
pub mod Flapping
pub mod Total
pub mod Fresh
pub mod FanOut
pub mod Cooldown
