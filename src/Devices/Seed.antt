-- ===== src/Devices/Seed.antt =====
-- apps/devices/management/commands/seed_demo.py: the command that fills a demo tenant.
pub mod GetOrCreate
pub mod Rows
pub mod Fleet
pub mod Command
pub mod Later
pub mod Inserts
pub mod Again
pub mod Rules
pub mod Rerun
