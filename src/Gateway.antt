-- ===== src/Gateway.antt =====
-- src/gateway.rs: what it decides without I/O, and its streams as sequences of what arrives.
pub mod RateLimit
pub mod Usage
pub mod Sse
pub mod Upstream
pub mod Retry
pub mod Pump
pub mod Store
pub mod Headers
pub mod Identity
pub mod Tests
