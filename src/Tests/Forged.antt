-- ===== src/Tests/Forged.antt =====
-- Snapshot files with a forged header, whose data section is said to end beyond 2^64, and files
-- that are cut.
use lowlatency.Common.{
  ℕ, ◌+◌, ◌-◌, ◌^◌, ◌≤◌, ◌≡◌, inr, refl, sym, ap, ◌∙◌, arith, Bytes, List, length, slice, splice,
  length-splice, slice-splice_self, slice-splice_ne, Elem, Option, some, true, leb, ◌==◌, eq→==,
  le→leb, add64, mul64, ok, panic, index_range, index_range_lem, sum, [], ◌∷◌, take, if◌then◌else◌,
  ltb, ◌*◌, err,
}
use lowlatency.Kv.Error.{Error, file_too_small}
use lowlatency.Common.Format.{codes}
use lowlatency.Builder.Validation.{ValidationError, validate_snapshot}
use lowlatency.Builder.Validation.Counted.{verdict, validate_snapshot_counts}
use lowlatency.Kv.Store
use lowlatency.Kv.Store.Sample.{found, lost, drawn}
use lowlatency.Validator.Check.{CommandError, message, failed_message, status_text, check_snapshot}
use lowlatency.Validator.Bench.{benchmark_lookups}
use lowlatency.Validator.Accepted.{check_snapshot_counts, benchmark_lookups_accepted}
use lowlatency.Tests.Commands.{firsts, firsts-IsChoice}
use lowlatency.Kv.Header
use lowlatency.Kv.Header.{Header, header_size, validate}
use lowlatency.Kv.Header.Layout.{IsHeader, from_bytes-to_bytes, length-to_bytes}
use lowlatency.Kv.Record.{record_size}
use lowlatency.Kv.GoFunction.{Answers}
use lowlatency.Kv.Mphf
use lowlatency.Kv.Mphf.Slots.{slot_has_key}
use lowlatency.Kv.Store.{KvStore, open_bytes, get, iter}
use lowlatency.Kv.Store.Opening.{IsSnapshot, header_read}
use lowlatency.Kv.Store.Accepted.{open_bytes-get-iter, get-open_bytes_panics}
use lowlatency.Kv.Store.Truncated.{open_bytes-take}
use lowlatency.Tests.Hash.{places}
use lowlatency.Tests.Data.{
  key_of, two_keys, two_values, two-IsTable, two_file, two_facts, two_store, two_opened,
  two-IsLoaded,
}

abbrev forged : Header
forged = record two_facts.header { data_offset = 2 ^ 64 - 1 }

abbrev forged_file : Bytes
forged_file = splice 0 (Header.to_bytes forged) two_file

abbrev snap :
    IsSnapshot places two_file two_facts.header two_facts.index two_facts.mphf two_keys two_values
snap = two_facts.snapshot

pub two_read : Header.from_bytes two_file ≡ ok two_facts.header
two_read =
    header_read places two_file two_facts.header two_facts.index two_facts.mphf two_keys two_values
      snap

pub two_total : Answers places two_store.mphf.function
two_total = two-IsLoaded.total

open_bytes-get-iter_example :
    ((value : Option Bytes) × (get places {E = Error} two_store (key_of 3) ≡ ok value))
    × ((pairs : List (Bytes × Bytes)) × (iter places {E = Error} two_store ≡ ok pairs)
        × (length pairs ≡ two_facts.header.record_count))
open_bytes-get-iter_example =
    open_bytes-get-iter Error places two_file two_facts.header two_store (key_of 3) snap.addressable
      two_read two_opened.1 (omega (arith, snap.data_inside, snap.counted, snap.addressable))
      two_total

forged_length : length forged_file ≡ length two_file
forged_length = length-splice 0 (Header.to_bytes forged) two_file

two_long : header_size ≤ length two_file
two_long = omega (arith, snap.index_before_data, snap.data_inside)

forged-IsHeader : IsHeader forged
forged-IsHeader =
    let good = snap.header_sized in
    record {
      magic_IsU64 = good.magic_IsU64;
      version_IsU64 = good.version_IsU64;
      record_count_IsU64 = good.record_count_IsU64;
      mphf_size_IsU64 = good.mphf_size_IsU64;
      data_offset_IsU64 = omega arith;
      build_timestamp_IsU64 = good.build_timestamp_IsU64;
      length-checksum = good.length-checksum;
    }

forged_front : slice 0 header_size forged_file ≡ Header.to_bytes forged
forged_front =
    ap (λ (n : ℕ). slice 0 n forged_file) (sym (length-to_bytes forged))
    ∙ slice-splice_self 0 (Header.to_bytes forged) two_file
        (omega (arith, length-to_bytes forged, two_long))

forged_valid : validate forged ≡ ok tt
unfolding validate
forged_valid = snap.header_valid

forged_read : Header.from_bytes forged_file ≡ ok forged
forged_read =
    from_bytes-to_bytes forged forged_file forged-IsHeader (omega (arith, two_long, forged_length))
      forged_front
    ∙ rw forged_valid

forged_index :
    index_range {E = Error} header_size (add64 header_size two_facts.header.mphf_size) forged_file
    ≡ ok two_facts.index
forged_index =
    let size : ℕ = length two_facts.index in
    let end : add64 header_size two_facts.header.mphf_size ≡ header_size + size =
      omega (arith, snap.index_size, snap.index_before_data, snap.data_inside, snap.addressable) in
    let sized : header_size + size - header_size ≡ size = omega arith in
    let same : slice header_size size forged_file ≡ two_facts.index =
      slice-splice_ne header_size size 0 (Header.to_bytes forged) two_file
        (inr (omega (arith, length-to_bytes forged)))
      ∙ snap.index_there in
    rw (
      end,
      index_range_lem {E = Error} header_size (header_size + size) forged_file (omega arith)
          (omega (arith, snap.index_before_data, snap.data_inside, forged_length)),
      sized,
      same,
    )

abbrev forged_store : KvStore places
forged_store = record {
  mmap = forged_file;
  mphf = two_facts.mphf;
  record_count = two_facts.header.record_count;
  data_offset = 2 ^ 64 - 1;
  version_info = record {
    build_timestamp = two_facts.header.build_timestamp;
    record_count = two_facts.header.record_count;
    file_size = length forged_file;
  };
}

forged_opens :
    (s : KvStore places) × (open_bytes places forged_file ≡ ok s) × (s.mphf ≡ two_facts.mphf)
unfolding open_bytes Mphf.len
forged_opens =
    let counts : (two_facts.mphf.key_count == two_facts.header.record_count) ≡ true =
      eq→== _ _ (snap.indexed ∙ sym snap.counted) in
    let end : add64 (2 ^ 64 - 1) (mul64 two_facts.header.record_count record_size) ≡ 639 =
      omega (arith, snap.counted) in
    let room : leb 639 (length forged_file) ≡ true =
      le→leb _ _ (omega (arith, two_long, forged_length)) in
    (forged_store, rw (forged_read, forged_index, snap.index_read, counts, end, room) refl, refl)

-- The key in the first slot.
first_key : (k : Bytes) × Elem k two_keys × (Mphf.slot_of places two_facts.mphf k ≡ some 0)
first_key =
    slot_has_key (Mphf.slot_of places two_facts.mphf) 2 two_keys 0 snap.perfect
      two-IsTable.keys_distinct refl (omega arith)

get-open_bytes_panics_example : get places {E = Error} forged_opens.0 first_key.0 ≡ panic
get-open_bytes_panics_example =
    get-open_bytes_panics places forged_file forged forged_opens.0 first_key.0 forged_read
      forged_opens.1 (omega (arith, forged_length, snap.addressable)) (omega arith)
      (rw (forged_opens.2) first_key.2) (omega (arith, snap.counted))

-- The built file without its records.
abbrev without_records : ℕ
without_records = two_facts.header.data_offset

open_bytes-take_example : open_bytes places (take without_records two_file) ≡ (
    if ltb without_records header_size
    then err (file_too_small without_records header_size)
    else if ltb without_records (header_size + length two_facts.index)
    then panic
    else err (file_too_small without_records (two_facts.header.data_offset + 2 * record_size)))
open_bytes-take_example =
    open_bytes-take places two_file two_facts.header two_facts.index two_facts.mphf two_keys
      two_values two_facts.snapshot without_records (omega arith)

validate_snapshot_counts_example :
    (pairs : List (Bytes × Bytes)) × (iter places {E = ValidationError} two_store ≡ ok pairs)
    × (length pairs ≡ two_facts.header.record_count)
    × (answer : Bytes → Option Bytes) × ((key : Bytes)
        → get places {E = ValidationError} two_store key ≡ ok (answer key))
    × (validate_snapshot places (λ path. ok two_file) firsts (codes "a.bin") 10_000
        ≡ verdict (sum (lost answer) (drawn firsts pairs 10_000)) 10_000)
validate_snapshot_counts_example =
    validate_snapshot_counts places (λ path. ok two_file) firsts (codes "a.bin") 10_000 two_file
      two_facts.header two_store firsts-IsChoice refl snap.addressable two_read two_opened.1
      (omega (arith, snap.data_inside, snap.counted, snap.addressable))
      (omega (arith, snap.counted)) two_total

check_snapshot_counts_example :
    (pairs : List (Bytes × Bytes)) × (iter places {E = CommandError} two_store ≡ ok pairs)
    × (length pairs ≡ two_facts.header.record_count)
    × (answer : Bytes → Option Bytes) × ((key : Bytes)
        → get places {E = CommandError} two_store key ≡ ok (answer key))
    × (check_snapshot places (λ path. ok two_file) firsts 12 (codes "a.bin") 1_000 [] ≡ (
      if sum (lost answer) (drawn firsts pairs 1_000) == 0
          then ok tt
          else err (message (failed_message (sum (lost answer) (drawn firsts pairs 1_000)))),
      record {
        snapshot = codes "a.bin";
        record_count = Store.len places two_store;
        sample_size = length (drawn firsts pairs 1_000);
        lookups_passed = sum (found answer) (drawn firsts pairs 1_000);
        lookups_failed = sum (lost answer) (drawn firsts pairs 1_000);
        elapsed_ms = 12;
        status = status_text (sum (lost answer) (drawn firsts pairs 1_000));
      }
          ∷ [],
    ))
check_snapshot_counts_example =
    check_snapshot_counts places (λ path. ok two_file) (codes "a.bin") two_file two_facts.header
      two_store refl snap.addressable two_read two_opened.1
      (omega (arith, snap.data_inside, snap.counted, snap.addressable)) two_total firsts 12 1_000 []

benchmark_lookups_accepted_example :
    benchmark_lookups places (λ path. ok two_file) (codes "a.bin") 5 3 ≡ (
      if two_facts.header.record_count == 0
      then err (message (codes "Snapshot is empty"))
      else ok tt)
benchmark_lookups_accepted_example =
    benchmark_lookups_accepted places (λ path. ok two_file) (codes "a.bin") two_file
      two_facts.header two_store refl snap.addressable two_read two_opened.1
      (omega (arith, snap.data_inside, snap.counted, snap.addressable)) two_total 5 3
