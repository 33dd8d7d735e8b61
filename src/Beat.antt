-- ===== src/Beat.antt =====
-- config/celery.py: the periodic jobs, and what they achieve together.
pub mod Schedule
pub mod Fades
pub mod Jobs
pub mod Minutes
