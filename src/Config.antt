-- ===== src/Config.antt =====
-- src/config.rs.
pub mod Secret
pub mod Raw
pub mod Types
pub mod Compare
pub mod Credentials
pub mod Limits
pub mod Handling
pub mod Hardening
pub mod Load
pub mod Tests
