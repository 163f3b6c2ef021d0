-- ===== src/Kv/Mphf.antt =====
-- crates/kv-store/src/mphf.rs: the wrapper round the hash function.
pub mod Slots
pub mod Stored
use lowlatency.Common.{
  ℕ, ◌-◌, Bytes, Text, List, [], ◌∷◌, length, ◌++◌, Option, some, none, Outcome, Bool, ltb, ◌==◌,
  if◌then◌else◌, to_le_bytes, from_le_bytes, slice, ok, err, unwrap, map_err, ◌>>=◌, ◌>>◌,
}
use lowlatency.Common.Format.{codes, decimal, debug_struct}
use lowlatency.Kv.Error.{Result, invalid_mphf, serialization}
use lowlatency.Kv.GoFunction.{GoFunction, given}

pub record Mphf (go : GoFunction) : Type 0 where
  pub function : go.Function
  pub key_count : ℕ

-- A slot, if the function gives one and it is in bounds.
in_bounds : ℕ → Option ℕ → Option ℕ
in_bounds key_count none = none
in_bounds key_count (some slot) = if ltb slot key_count then some slot else none

module _ (go : GoFunction) where
  unfoldable pub build : List Bytes → Result (Mphf go)
  build keys =
      if length keys == 0 then err (invalid_mphf (codes "Cannot build MPHF with zero keys")) else do
        function ← unwrap (go.from_slice keys)
        ok (record { function = function; key_count = length keys })

  unfoldable pub get {ℓ} : {E : Type ℓ} → Mphf go → Bytes → Outcome E (Option ℕ)
  unfolding in_bounds
  get m key = do found ← unwrap (go.get m.function key); ok (in_bounds m.key_count found)

  -- What `get` returns, where it does not panic.
  unfoldable pub slot_of : Mphf go → Bytes → Option ℕ
  unfolding in_bounds given
  slot_of m key = in_bounds m.key_count (given (go.get m.function key))

  unfoldable pub len : Mphf go → ℕ
  len m = m.key_count

  unfoldable pub is_empty : Mphf go → Bool
  is_empty m = m.key_count == 0

  unfoldable pub size_bytes : Mphf go → ℕ
  size_bytes m = go.size_bytes m.function

  unfoldable pub fmt : Mphf go → Text
  unfolding size_bytes
  fmt m = debug_struct (codes "Mphf") (
      (codes "key_count", decimal m.key_count)
      ∷ ((codes "size_bytes", decimal (size_bytes m)) ∷ []))

  unfoldable pub serialize : Mphf go → Result Bytes
  serialize m = do
    written ← map_err serialization (go.write m.function)
    ok (to_le_bytes 8 m.key_count ++ written)

  unfoldable pub deserialize : Bytes → Result (Mphf go)
  deserialize bytes =
      if ltb (length bytes) 8 then err (invalid_mphf (codes "MPHF data too short")) else do
        let key_count = from_le_bytes (slice 0 8 bytes)
        function ← map_err serialization (go.read (slice 8 (length bytes - 8) bytes))
        ok (record { function = function; key_count = key_count })
