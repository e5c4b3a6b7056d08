-- ===== src/Examples.antt =====
-- Concrete inputs for the theorems of the other modules.
pub mod Toy
mod Frames
mod Handshake
mod Messages
mod Sessions
mod Registry
mod Connections
mod Reconnect
pub mod HostPort
mod Server
pub mod Authority
mod Admin
mod Broker
mod Control
mod Peers
mod Splice
mod Status
