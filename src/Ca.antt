-- ===== src/Ca.antt =====
-- internal/ca: the private certificate authority.
pub mod Serials
pub mod Files
pub mod Directory
pub mod Issue
