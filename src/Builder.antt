-- ===== src/Builder.antt =====
-- The crate snapshot-builder.
pub mod Snapshot
pub mod Inputs
pub mod Validation
pub mod CommandLine
