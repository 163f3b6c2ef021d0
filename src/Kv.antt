-- ===== src/Kv.antt =====
-- The crate kv-store.
pub mod Error
pub mod Header
pub mod Record
pub mod GoFunction
pub mod Mphf
pub mod Store
