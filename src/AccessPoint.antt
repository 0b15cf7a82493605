-- ===== src/AccessPoint.antt =====
-- ap_manager/ap_manager.py: an access point, its stations, and their tunnels.
pub mod Vxlan
pub mod Keeps
pub mod Connect
pub mod Disconnect
pub mod Monitor
pub mod Exit
mod Tests
