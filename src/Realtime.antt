-- ===== src/Realtime.antt =====
-- apps/realtime: the WebSocket consumers, and who may hear what.
pub mod Consumers
pub mod Privacy
pub mod Middleware
