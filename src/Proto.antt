-- ===== src/Proto.antt =====
-- internal/proto: the wire format, and the data plane's frames.
pub mod Error
pub mod Io
pub mod Hello
pub mod ConnKind
pub mod Attach
pub mod Control
pub mod Admin
pub mod Crypto
pub mod Claim
pub mod Auth
pub mod Frames
pub mod Token
