-- ===== src/Swarm.antt =====
-- The swarm's database (lib/database_comms.py), the switches (lib/bmv2_thrift_lib.py), and what the
-- processes do to the outside.
pub mod Io
pub mod Database
pub mod Words
pub mod Switch
pub mod Settings
pub mod Discovery
mod Tests
