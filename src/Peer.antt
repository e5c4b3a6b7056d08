-- ===== src/Peer.antt =====
-- internal/peer: how a peer keeps its session with relay.
pub mod Reconnect
pub mod Session
pub mod Slots
pub mod Control
