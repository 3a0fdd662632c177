-- ===== src/Pool.antt =====
-- src/pool.rs: the key pool. Each operation takes the pool, and the readings of the clock that the
-- code makes, and returns the new pool; each holds the lock of the state for its whole length.
pub mod Policy
pub mod Jitter
pub mod Entry
pub mod Cursor
pub mod State
pub mod Report
pub mod Attempts
pub mod Wait
pub mod Status
pub mod History
pub mod Tests
