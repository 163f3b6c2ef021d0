-- ===== src/Server.antt =====
-- The crate kv-server.
pub mod Metrics
pub mod Service
pub mod Process
pub mod Concurrent
