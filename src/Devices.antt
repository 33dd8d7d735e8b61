-- ===== src/Devices.antt =====
-- apps/devices: the fleet, remote commands, health, and the device API.
pub mod Models
pub mod Signals
pub mod Services
pub mod Tasks
pub mod Lifecycle
pub mod Issue
pub mod Health
pub mod Saves
pub mod Watchdog
pub mod Views
pub mod Control
pub mod Groups
pub mod Attribution
pub mod Seed
pub mod Api
pub mod Editing
pub mod Lists
