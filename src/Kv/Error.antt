-- ===== src/Kv/Error.antt =====
-- crates/kv-store/src/error.rs: the errors of the crate.
use lowlatency.Common.{ℕ, Text, Outcome}

-- An `std::io::Error` and a crate's own error are carried as the text that they print.
pub data Error : Type 0 where
  io : Text → Error
  invalid_magic : ℕ → ℕ → Error
  unsupported_version : ℕ → Error
  checksum_mismatch : Text → Text → Error
  file_too_small : ℕ → ℕ → Error
  invalid_mphf : Text → Error
  too_many_records : ℕ → ℕ → Error
  invalid_key_size : ℕ → Error
  serialization : Text → Error

-- `Result<T>` of the crate, with panics.
abbrev pub Result : Type 0 → Type 0
Result A = Outcome Error A
