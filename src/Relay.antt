-- ===== src/Relay.antt =====
-- internal/relay: sessions, the registry that pairs their ends, and relay's connections.
pub mod Session
pub mod Registry
pub mod Connections
pub mod Server
pub mod Admin
pub mod Heartbeat
