-- ===== src/Kv/Record.antt =====
-- crates/kv-store/src/record.rs: a record is 64 bytes of key and 256 bytes of value.
pub mod Cast
use lowlatency.Common.Format.{codes, decimal, hex_encode, quoted, debug_struct}
use lowlatency.Common.{
  ℕ, [], ◌∷◌, take, ltb, if◌then◌else◌, Text, ◌≡◌, Bytes, length, ◌++◌, slice, Bool, ◌==◌, bytes_eq,
  Outcome, ok, assert, ◌>>◌,
}

abbrev pub key_size : ℕ
key_size = 64

abbrev pub value_size : ℕ
value_size = 256

abbrev pub record_size : ℕ
record_size = 320

pub record Record : Type 0 where
  pub key : Bytes
  pub value : Bytes

abbrev pub IsKey : Bytes → Type 0
IsKey key = length key ≡ key_size

abbrev pub IsValue : Bytes → Type 0
IsValue value = length value ≡ value_size

-- The struct is packed: the key stands at offset 0, the value behind it.
unfoldable pub from_bytes {ℓ} : {E : Type ℓ} → Bytes → Outcome E Record
from_bytes bytes = do
  assert (length bytes == record_size)
  ok (record { key = slice 0 key_size bytes; value = slice key_size value_size bytes })

unfoldable pub as_bytes : Record → Bytes
as_bytes r = r.key ++ r.value

unfoldable pub key_equals : Record → Bytes → Bool
key_equals r other = bytes_eq r.key other

-- The digits of sixteen bytes at most, with dots for those that are left out.
unfoldable pub encode : Bytes → Text
encode bytes = hex_encode (take 16 bytes) ++ (if ltb 16 (length bytes) then codes "..." else [])

unfoldable pub fmt : Record → Text
unfolding encode
fmt r =
    debug_struct (codes "Record")
      ((codes "key", quoted (encode r.key)) ∷ ((codes "value_len", decimal value_size) ∷ []))
