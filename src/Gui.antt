-- ===== src/Gui.antt =====
-- The web backend (GUI/backend).
pub mod Sockets
pub mod LogStream
pub mod HeartbeatControl
pub mod LogParser
pub mod LogServer
pub mod Requests
pub mod Details
pub mod Listings
mod Tests
