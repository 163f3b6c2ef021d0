-- ===== src/Kv/Store/Loaded.antt =====
-- What a data section holds, and the abstract view of a store: an association of keys with values.
use lowlatency.Common.{
  ℕ, ◌+◌, ◌*◌, ◌^◌, ◌≤◌, ◌<◌, ◌≡◌, Bytes, List, ◌∷◌, length, slice, Option, some, none, bytes_eq,
  if◌then◌else◌, Distinct, All,
}
use lowlatency.Kv.Record.{IsKey, IsValue, key_size, value_size, record_size}
use lowlatency.Kv.GoFunction.{GoFunction, IsPerfect, Answers}
use lowlatency.Kv.Mphf
use lowlatency.Kv.Store.{KvStore}

-- The value of the first entry for a key.
unfoldable pub lookup : Bytes → List Bytes → List Bytes → Option Bytes
lookup key (k ∷ keys) (v ∷ values) = if bytes_eq k key then some v else lookup key keys values
lookup key keys values = none

module _ (slot_of : Bytes → Option ℕ) (data_offset : ℕ) (contents : Bytes) where
  -- The slot of the key holds the key and the value.
  abbrev pub Holds : Bytes → Bytes → Type 0
  Holds k v =
      (s : ℕ) × (slot_of k ≡ some s)
      × (slice (data_offset + s * record_size) key_size contents ≡ k)
      × (slice (data_offset + s * record_size + key_size) value_size contents ≡ v)

  abbrev pub Placed : List Bytes → List Bytes → Type 0
  Placed (k ∷ keys) (v ∷ values) = Holds k v × Placed keys values
  Placed keys values = Unit {0}

-- The input of a snapshot: distinct keys of 64 bytes, with a value of 256 bytes for each.
pub record IsTable (keys values : List Bytes) : Type 0 where
  pub keys_sized : All IsKey keys
  pub values_sized : All IsValue values
  pub keys_distinct : Distinct keys
  pub as_many : length keys ≡ length values

-- A store that holds the table: every record in its slot, no slot free, all inside
-- the map, and an index that panics at no key.
pub record IsLoaded (go : GoFunction) (s : KvStore go) (keys values : List Bytes) : Type 0 where
  pub counted : s.record_count ≡ length keys
  pub indexed : s.mphf.key_count ≡ length keys
  pub perfect : IsPerfect (Mphf.slot_of go s.mphf) (length keys) keys
  pub total : Answers go s.mphf.function
  pub placed : Placed (Mphf.slot_of go s.mphf) s.data_offset s.mmap keys values
  pub mapped : s.data_offset + length keys * record_size ≤ length s.mmap
  pub addressable : length s.mmap < 2 ^ 64
