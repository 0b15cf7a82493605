-- ===== src/Coordinator.antt =====
-- coordinator/coordinator.py: nodes join and leave the swarm on request of the adaptive coordinator.
pub mod Onboard
pub mod Requests
pub mod SwarmNode
mod Tests
