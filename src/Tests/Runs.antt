-- ===== src/Tests/Runs.antt =====
-- The theorems about files at concrete inputs.
use lowlatency.Common.{
  ℕ, ◌-◌, ◌∙◌, bytes_eq, slice_all, ◌^◌, ◌%◌, ◌≤◌, ◌<◌, ◌≡◌, refl, arith, List, inl, Bytes, some,
  length, replicate, length-replicate, slice, ok, ◌>>◌, true, ◌⊎◌, ◌≢◌, Text, panic,
}
use lowlatency.Kv.Error.{Error}
use lowlatency.Kv.Header
use lowlatency.Kv.Header.{Header, align_to_4k, from_bytes, to_bytes, validate, verify_checksum}
use lowlatency.Kv.Header.Layout.{from_bytes-to_bytes, length-to_bytes}
use lowlatency.Kv.Header.Bounds.{align_to_4k_bounds, validate_iff, new-IsHeader}
use lowlatency.Common.Format.{
  codes, hex_encode, hex_digit, decimal, decimal_digits, debug_fields, debug_struct,
}
use lowlatency.Kv.Record
use lowlatency.Kv.Record.{record_size}
use lowlatency.Kv.Record.Cast.{IsRead, as_block, from_bytes-as_bytes}
use mathlib.Core.Equiv.{IsEquiv}
use lowlatency.Kv.GoFunction.{IsPerfect, Answers, given}
use lowlatency.Kv.Mphf
use lowlatency.Kv.Mphf.{Mphf}
use lowlatency.Kv.Mphf.Stored.{deserialize-serialize}
use lowlatency.Kv.Mphf.Slots.{slot_of-IsPerfect}
use lowlatency.Kv.Store
use lowlatency.Kv.Store.{KvStore, open_bytes}
use lowlatency.Kv.Store.Loaded.{IsLoaded, lookup, Placed}
use lowlatency.Kv.Store.Lookup.{get-lookup}
use lowlatency.Kv.Store.Opening.{open_bytes-IsLoaded}
use lowlatency.Builder.Snapshot
use lowlatency.Builder.Snapshot.{Output, build, write_records}
use lowlatency.Builder.Snapshot.Records.{write_records-Placed}
use lowlatency.Builder.Snapshot.Layout.{all_succeed}
use lowlatency.Builder.Snapshot.RoundTrip.{build-open-get, verify_checksum-build}
use lowlatency.Tests.Hash.{places, places-IsLawful}
use lowlatency.Tests.Data.{
  key_of, value_of, two_keys, two_values, two_records, two-IsTable, digest, stamp, two-IsBuildable,
  no_file, two_file, two_facts, two_store, two-IsLoaded,
}

build-open-get_example :
    (after : Output) × (build places digest all_succeed stamp two_records no_file ≡ (ok tt, after))
    × (s : KvStore places) × (open_bytes places after.contents ≡ ok s)
    × (Store.len places s ≡ Snapshot.len two_records)
    × ((Store.version_info places s).build_timestamp ≡ stamp)
    × ((key : Bytes) → Store.get places {E = Error} s key ≡ ok (lookup key two_keys two_values))
build-open-get_example =
    build-open-get places digest stamp two_records no_file places-IsLawful two-IsBuildable

verify_checksum-build_example :
    (after : Output) × (build places digest all_succeed stamp two_records no_file ≡ (ok tt, after))
    × (h : Header) × (Header.from_bytes after.contents ≡ ok h)
    × (verify_checksum digest h
          (slice h.data_offset (length after.contents - h.data_offset) after.contents)
        ≡ ok tt)
verify_checksum-build_example =
    verify_checksum-build places digest stamp two_records no_file places-IsLawful two-IsBuildable

open_bytes-IsLoaded_example :
    (s : KvStore places) × (open_bytes places two_file ≡ ok s)
    × IsLoaded places s two_keys two_values
    × (s.mmap ≡ two_file)
    × (s.version_info ≡ record {
      build_timestamp = two_facts.header.build_timestamp;
      record_count = two_facts.header.record_count;
      file_size = length two_file;
    })
open_bytes-IsLoaded_example =
    open_bytes-IsLoaded places two_file two_facts.header two_facts.index two_facts.mphf two_keys
      two_values two_facts.snapshot

get-lookup_example : Store.get places {E = Error} two_store (key_of 2) ≡ ok (some (value_of 20))
unfolding lookup bytes_eq replicate
get-lookup_example =
    get-lookup places two_store two_keys two_values (key_of 2) two-IsTable two-IsLoaded

from_bytes-to_bytes_example :
    from_bytes two_file ≡ (validate two_facts.header >> ok two_facts.header)
from_bytes-to_bytes_example =
    from_bytes-to_bytes two_facts.header two_file two_facts.snapshot.header_sized
      (omega (arith, two_facts.snapshot.index_before_data, two_facts.snapshot.data_inside))
      two_facts.snapshot.header_there

align_to_4k_bounds_example :
    (4097 ≤ align_to_4k 4097) × (align_to_4k 4097 < 8193) × (align_to_4k 4097 % 4096 ≡ 0)
align_to_4k_bounds_example = align_to_4k_bounds 4097 (omega arith)

-- An index of a terabyte, in a file that is only a header.
abbrev cut_header : Header
cut_header = Header.new 1 1_000_000_000_000 stamp

cut_file : Bytes
cut_file = to_bytes cut_header

cut_parsed : from_bytes cut_file ≡ ok cut_header
unfolding cut_file
cut_parsed =
    from_bytes-to_bytes cut_header cut_file
      (new-IsHeader 1 1_000_000_000_000 stamp (omega arith) (omega arith) (omega arith))
      (omega (arith, length-to_bytes cut_header))
      (slice_all 4096 cut_file (length-to_bytes cut_header))
    ∙ rw ((validate_iff cut_header).1 (unfold Header.new in (refl, refl, omega arith)))

two_index :
    (f : List Bytes) × (places.from_slice two_keys ≡ some f)
    × Answers places f
    × IsPerfect (λ k. given (places.get f k)) 2 two_keys
    × (bytes : Bytes) × (places.write f ≡ ok bytes)
two_index =
    places-IsLawful.builds two_keys two-IsTable.keys_sized two-IsTable.keys_distinct (omega arith)

abbrev two_mphf : Mphf places
two_mphf = record { function = two_index.0; key_count = 2 }

deserialize-serialize_example :
    (bytes : Bytes) × (Mphf.serialize places two_mphf ≡ ok bytes)
    × (length bytes < 2 ^ 63)
    × (m' : Mphf places) × (Mphf.deserialize places bytes ≡ ok m')
    × (m'.key_count ≡ 2)
    × ((k : Bytes) → Mphf.get places {E = Error} m' k ≡ Mphf.get places {E = Error} two_mphf k)
deserialize-serialize_example =
    deserialize-serialize places two_mphf two_index.4 places-IsLawful (omega arith) two_index.5

two-IsPerfect : IsPerfect (Mphf.slot_of places two_mphf) 2 two_keys
two-IsPerfect = slot_of-IsPerfect places two_mphf two_keys two_index.3

abbrev zeros : Output
zeros = record { exists = true; contents = replicate 8192 0 }

write_records-Placed_example :
    (after : Output) × (write_records places two_mphf 4096 two_keys two_values zeros
      ≡ (ok tt, after))
    × (length after.contents ≡ length zeros.contents)
    × Placed (Mphf.slot_of places two_mphf) 4096 after.contents two_keys two_values
    × (slice 0 100 after.contents ≡ slice 0 100 zeros.contents)
write_records-Placed_example =
    write_records-Placed places two_mphf 4096 2 two_keys two_values zeros 0 100 two-IsPerfect
      two-IsTable (omega (arith, length-replicate {A = ℕ} 8192 0))
      (omega (arith, length-replicate {A = ℕ} 8192 0)) (λ k s e at. inl (omega arith))

-- A key of 64 bytes shows its first sixteen, and dots.
encode_run : Record.encode (replicate 64 171) ≡ codes "abababababababababababababababab..."
unfolding Record.encode hex_encode hex_digit replicate
encode_run = refl

fmt_run :
    Store.fmt places (record {
      mmap = replicate 4736 0;
      mphf = record { function = two_keys; key_count = 2 };
      record_count = 2;
      data_offset = 4096;
      version_info = record { build_timestamp = stamp; record_count = 2; file_size = 4736 };
    })
    ≡ codes "KvStore { record_count: 2, file_size: 4736, data_offset: 4096 }"
unfolding Store.fmt debug_struct debug_fields decimal decimal_digits replicate
fmt_run = refl

-- 320 bytes.
abbrev block : Bytes
block = replicate 320 5

from_bytes-as_bytes_example :
    (IsRead block ⊎ ((length block ≢ record_size) × (Record.from_bytes {E = Text} block ≡ panic)))
    × IsEquiv as_block
from_bytes-as_bytes_example = from_bytes-as_bytes block
