-- ===== src/Mqtt.antt =====
-- apps/mqtt: the topic scheme, the inbound message handlers and the bridge.
pub mod Topics
pub mod Handlers
pub mod Results
pub mod Runs
pub mod RoundTrip
pub mod Transports
pub mod Client
pub mod Simulator
pub mod Leaves
pub mod Control
pub mod Arrival
pub mod Simulated
