-- ===== src/Cmd.antt =====
-- cmd/ggrok: what the commands compute besides their output.
pub mod Credentials
pub mod Settings
pub mod Color
pub mod Status
