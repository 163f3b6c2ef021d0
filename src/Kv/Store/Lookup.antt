-- ===== src/Kv/Store/Lookup.antt =====
-- A loaded store answers every key as the table does.
use lowlatency.Common.{
  ℕ, ◌+◌, ◌-◌, ◌*◌, ◌^◌, ◌≤◌, ◌<◌, ◌≡◌, ◌⊎◌, inl, inr, refl, sym, ap, ◌∙◌, arith, Bytes, List, [],
  ◌∷◌, length, slice, Option, some, none, Option-cases, Bool-cases, bytes_eq, bytes_eq→eq,
  eq→bytes_eq, ne→bytes_eq, leb, Elem, add64, mul64, ok, index_range_lem, length-slice, slice-slice,
  false,
}
use lowlatency.Kv.Record
use lowlatency.Kv.Record.{Record, record_size, key_size, value_size, key_equals}
use lowlatency.Kv.GoFunction.{GoFunction}
use lowlatency.Kv.Mphf
use lowlatency.Kv.Mphf.Slots.{slot_has_key, slot_of-lt, get-total}
use lowlatency.Kv.Store.{KvStore, get, get_at, get_record, matching}
use lowlatency.Kv.Store.Loaded.{lookup, Holds, Placed, IsTable, IsLoaded}

-- Only the keys of the table are found.
pub lookup_absent :
    (key : Bytes) (keys values : List Bytes) → (Elem key keys → ⊥) → lookup key keys values ≡ none
unfolding lookup
lookup_absent key [] values absent = refl
lookup_absent key (k ∷ keys) [] absent = refl
lookup_absent key (k ∷ keys) (v ∷ values) absent =
    rw (ne→bytes_eq k key (λ e. absent (inl e)))
      (lookup_absent key keys values (λ e. absent (inr e)))

-- The record of a key of the table holds the value that the table has.
pub Placed-lookup :
    (slot_of : Bytes → Option ℕ) (data_offset : ℕ) (contents : Bytes) (key : Bytes)
    (keys values : List Bytes)
    → Placed slot_of data_offset contents keys values
    → length keys ≡ length values
    → Elem key keys
    → (v : Bytes) × Holds slot_of data_offset contents key v × (lookup key keys values ≡ some v)
unfolding lookup
Placed-lookup slot_of data_offset contents key [] values p n e = absurd e
Placed-lookup slot_of data_offset contents key (k ∷ keys) [] p n e = absurd (omega arith)
Placed-lookup slot_of data_offset contents key (k ∷ keys) (v ∷ values) p n e =
    elim (Bool-cases (bytes_eq k key)) [
      | inl same ↦ let eq : k ≡ key = bytes_eq→eq k key same in (v, rw eq at p.0, rw same)
      | inr other ↦
          let later : Elem key keys = in_rest other e in
          let (w, held, found) =
            Placed-lookup slot_of data_offset contents key keys values p.1 (omega arith) later in
          (w, held, rw other found)
    ]
  where
    in_rest : bytes_eq k key ≡ false → (k ≡ key) ⊎ Elem key keys → Elem key keys
    in_rest other (inl eq) = cc (eq→bytes_eq k key eq)
    in_rest other (inr there) = there

-- The bytes of a record that lies inside the map.
abbrev pub record_at : ℕ → Bytes → Record
record_at offset bytes = record {
  key = slice offset key_size bytes;
  value = slice (offset + key_size) value_size bytes;
}

from_bytes_inside {ℓ} :
    {E : Type ℓ} (offset : ℕ) (bytes : Bytes)
    → offset + record_size ≤ length bytes
    → Record.from_bytes {E = E} (slice offset record_size bytes) ≡ ok (record_at offset bytes)
unfolding Record.from_bytes
from_bytes_inside offset bytes inside = rw (
  length-slice offset record_size bytes inside,
  slice-slice 0 key_size offset record_size offset bytes (omega arith) (omega arith),
  slice-slice key_size value_size offset record_size (offset + key_size) bytes (omega arith) refl,
)

-- The address arithmetic does not wrap at a slot whose record lies inside the map.
pub get_record_inside {ℓ} :
    {E : Type ℓ} (go : GoFunction) (s : KvStore go) (slot : ℕ)
    → s.data_offset + slot * record_size + record_size ≤ length s.mmap
    → length s.mmap < 2 ^ 64
    → get_record go {E = E} s slot ≡ ok (record_at (s.data_offset + slot * record_size) s.mmap)
unfolding get_record
get_record_inside go s slot inside small =
    let offset : ℕ = s.data_offset + slot * record_size in
    let start : add64 s.data_offset (mul64 slot record_size) ≡ offset = omega arith in
    let end : add64 offset record_size ≡ offset + record_size = omega arith in
    let sized : offset + record_size - offset ≡ record_size = omega arith in
    rw
      (start, end, index_range_lem offset (offset + record_size) s.mmap (omega arith) inside, sized)
      (from_bytes_inside offset s.mmap inside)

module _ (go : GoFunction) (s : KvStore go) (keys values : List Bytes) where
  pub slot_inside :
      (slot : ℕ)
      → IsLoaded go s keys values
      → slot < length keys
      → s.data_offset + slot * record_size + record_size ≤ length s.mmap
  slot_inside slot loaded low = omega (arith, loaded.mapped)

  get_at_slot {ℓ} :
      {E : Type ℓ} (key : Bytes) (slot : ℕ)
      → IsLoaded go s keys values
      → slot < length keys
      → get_at go {E = E} s key (some slot)
        ≡ ok (matching key (record_at (s.data_offset + slot * record_size) s.mmap))
  unfolding get_at
  get_at_slot key slot loaded low =
      let bounded : leb s.record_count slot ≡ false = ground (arith, loaded.counted) in
      rw (bounded, get_record_inside go s slot (slot_inside slot loaded low) loaded.addressable)

  -- The record in a slot is that of the key to which the slot belongs.
  pub record_in_slot :
      (slot : ℕ) (k v : Bytes)
      → Mphf.slot_of go s.mphf k ≡ some slot
      → Holds (Mphf.slot_of go s.mphf) s.data_offset s.mmap k v
      → record_at (s.data_offset + slot * record_size) s.mmap ≡ record { key = k; value = v }
  record_in_slot slot k v at (t, at', key_there, value_there) =
      let same : t ≡ slot = cc in
      λ i. record { key = (rw same at key_there) i; value = (rw same at value_there) i }

  -- The key in the slot decides, since no other key of the table has that slot.
  matching-lookup :
      (key : Bytes) (slot : ℕ)
      → IsTable keys values
      → IsLoaded go s keys values
      → Mphf.slot_of go s.mphf key ≡ some slot
      → slot < length keys
      → matching key (record_at (s.data_offset + slot * record_size) s.mmap)
        ≡ lookup key keys values
  unfolding matching key_equals
  matching-lookup key slot table loaded at low =
      let (k, there, at_k) =
        slot_has_key (Mphf.slot_of go s.mphf) (length keys) keys slot loaded.perfect
          table.keys_distinct refl low in
      let (v, held, found) =
        Placed-lookup (Mphf.slot_of go s.mphf) s.data_offset s.mmap k keys values loaded.placed
          table.as_many there in
      ap (matching key) (record_in_slot slot k v at_k held) ∙ (elim (Bool-cases (bytes_eq k key)) [
        | inl same ↦ rw same (rw (bytes_eq→eq k key same) at (sym found))
        | inr other ↦ rw other (
            sym (
              lookup_absent key keys values (λ e.
                let k_is_key : k ≡ key = loaded.perfect.injective k key there e (at_k ∙ sym at) in
                cc (other, eq→bytes_eq k key k_is_key))))
      ])

  -- A loaded store answers every key: with the value that the table has for it, and with `None`
  -- for a key that the table does not have. No look-up panics.
  pub get-lookup {ℓ} :
      {E : Type ℓ} (key : Bytes)
      → IsTable keys values
      → IsLoaded go s keys values
      → get go {E = E} s key ≡ ok (lookup key keys values)
  unfolding get
  get-lookup {E = E} key table loaded =
      rw (get-total {E = E} go s.mphf key loaded.total)
        (elim (Option-cases (Mphf.slot_of go s.mphf key)) [
          | inl missing ↦
              rw missing
                (unfold get_at in ap ok (sym (lookup_absent key keys values (no_slot missing))))
          | inr (slot, at) ↦
              let low : slot < length keys =
                omega (arith, slot_of-lt go s.mphf key slot at, loaded.indexed) in
              rw at (
                get_at_slot key slot loaded low
                ∙ ap (λ (o : Option Bytes). ok o) (matching-lookup key slot table loaded at low))
        ])
    where
      no_slot : Mphf.slot_of go s.mphf key ≡ none → Elem key keys → ⊥
      no_slot missing e = let (t, at, low) = loaded.perfect.slot key e in cc (missing, at)
