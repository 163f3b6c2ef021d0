-- ===== src/Kv/Record/Cast.antt =====
-- crates/kv-store/src/record.rs: the casts between a packed record and its 320 bytes.
use mathlib.Core.HLevel.{Σ_prop_path}
use mathlib.Core.Equiv.{IsEquiv, iso_to_equiv}
use native.Mathlib.Nat.{ℕ_set}
use lowlatency.Common.{
  ◌++◌, refl, ◌≢◌, ◌⊎◌, inl, inr, Bool-cases, ◌==◌, ==_iff, ne→==, panic, ◌≡◌, sym, ap, ◌∙◌, arith,
  Bytes, Text, length, length-append, take-append, drop-append, slice, slice_all, slice-append,
  length-slice, eq→==, ok,
}
use lowlatency.Kv.Record.{
  Record, IsKey, IsValue, key_size, value_size, record_size, from_bytes, as_bytes,
}

-- `[u8; RECORD_SIZE]`
abbrev pub Block : Type 0
Block = (bytes : Bytes) × (length bytes ≡ record_size)

-- A `Record`, whose arrays have the sizes that the struct declares.
abbrev pub Packed : Type 0
Packed = (r : Record) × (IsKey r.key × IsValue r.value)

pub length-as_bytes : (p : Packed) → length (as_bytes p.0) ≡ record_size
unfolding as_bytes
length-as_bytes (r, (key_bytes, value_bytes)) = length-append r.key r.value ∙ omega arith

unfoldable pub as_block : Packed → Block
as_block p = (as_bytes p.0, length-as_bytes p)

-- The record that stands in a block.
fields_of : Bytes → Record
fields_of bytes = record { key = slice 0 key_size bytes; value = slice key_size value_size bytes }

as_record : Block → Packed
unfolding fields_of
as_record (bytes, whole) = (
  fields_of bytes,
  (
    length-slice 0 key_size bytes (omega arith),
    length-slice key_size value_size bytes (omega arith),
  ),
)

Packed-path : {p q : Packed} → p.0 ≡ q.0 → p ≡ q
Packed-path = Σ_prop_path (λ r. hlevel ℕ_set)

Block-path : {b c : Block} → b.0 ≡ c.0 → b ≡ c
Block-path = Σ_prop_path (λ bytes. hlevel ℕ_set)

as_block-as_record : (b : Block) → as_block (as_record b) ≡ b
unfolding as_block as_record fields_of as_bytes
as_block-as_record (bytes, whole) =
    Block-path (sym (slice-append 0 key_size value_size bytes) ∙ slice_all record_size bytes whole)

fields_of-as_bytes : (p : Packed) → fields_of (as_bytes p.0) ≡ p.0
unfolding fields_of as_bytes slice
fields_of-as_bytes (r, (key_bytes, value_bytes)) = rw (
  take-append key_size r.key r.value key_bytes,
  drop-append key_size r.key r.value key_bytes,
  slice_all value_size r.value value_bytes,
)

as_record-as_block : (p : Packed) → as_record (as_block p) ≡ p
unfolding as_block as_record
as_record-as_block p = Packed-path (fields_of-as_bytes p)

from_bytes_lem : (b : Block) → from_bytes {E = Text} b.0 ≡ ok (as_record b).0
unfolding from_bytes as_record fields_of
from_bytes_lem (bytes, whole) = rw (eq→== (length bytes) record_size whole)

from_bytes_panics :
    (bytes : Bytes) → length bytes ≢ record_size → from_bytes {E = Text} bytes ≡ panic
unfolding from_bytes
from_bytes_panics bytes other = rw (ne→== (length bytes) record_size other) refl

-- The record that `from_bytes` reads from 320 bytes: its key and its value stand in them one behind
-- the other, and `as_bytes` gives them back.
pub record IsRead (bytes : Bytes) : Type 0 where
  read : Record
  ran : from_bytes {E = Text} bytes ≡ ok read
  key_sized : IsKey read.key
  value_sized : IsValue read.value
  laid_out : bytes ≡ read.key ++ read.value
  written : as_bytes read ≡ bytes

-- A slice of 320 bytes reads as the record whose 64 bytes of key are the first of them and whose
-- 256 bytes of value are the others, and the record's bytes are the slice; a slice of any other
-- length panics. Between records of these sizes and slices of 320 bytes the cast is an equivalence
-- of types.
pub from_bytes-as_bytes :
    (bytes : Bytes)
    → (IsRead bytes ⊎ ((length bytes ≢ record_size) × (from_bytes {E = Text} bytes ≡ panic)))
      × IsEquiv as_block
from_bytes-as_bytes bytes = (
  elim (Bool-cases (length bytes == record_size)) [
    | inr other ↦
        let differs : length bytes ≢ record_size =
          λ whole. cc (other, eq→== (length bytes) record_size whole) in
        inr (differs, from_bytes_panics bytes differs)
    | inl whole ↦
        let b : Block = (bytes, (==_iff (length bytes) record_size).0 whole) in
        let back : as_bytes (as_record b).0 ≡ bytes =
          unfold as_block in ap (λ (c : Block). c.0) (as_block-as_record b) in
        inl (record {
          read = (as_record b).0;
          ran = from_bytes_lem b;
          key_sized = (as_record b).1.0;
          value_sized = (as_record b).1.1;
          laid_out = unfold as_bytes in sym back;
          written = back;
        })
  ],
  (iso_to_equiv (record {
    fun = as_block;
    inv = as_record;
    rinv = as_block-as_record;
    linv = as_record-as_block;
  })).1,
)
