-- ===== src/Validator.antt =====
-- crates/validator/src/main.rs: the commands that check a snapshot, or compare two.
pub mod Hex
pub mod Check
pub mod Diff
pub mod Pairs
pub mod Verify
pub mod Bench
pub mod Accepted
pub mod CommandLine
