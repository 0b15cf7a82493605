-- ===== src/Heartbeat.antt =====
-- Liveness by hash chains: the sender (node_manager/heartbeat) and the receiver
-- (coordinator/heartbeat_server.py).
pub mod Chain
pub mod Wire
pub mod Client
pub mod Server
pub mod Run
pub mod Monitor
mod Tests
