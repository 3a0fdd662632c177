-- ===== src/Audit.antt =====
-- src/audit.rs.
pub mod Fingerprint
pub mod Summary
pub mod Writer
pub mod Handle
pub mod Tests
