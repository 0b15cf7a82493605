-- ===== src/Node.antt =====
-- node_manager/node_manager.py: what a node does with the configurations it is sent.
pub mod Message
pub mod Service
pub mod Install
pub mod Communication
pub mod Wifi
mod Tests
