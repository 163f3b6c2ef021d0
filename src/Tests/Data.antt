-- ===== src/Tests/Data.antt =====
-- Test data: a table of two records, built to a file and opened from it.
use lowlatency.Common.{
  ℕ, sym, false, ◌%◌, ◌≡◌, ◌≢◌, refl, arith, List, [], ◌∷◌, inl, inr, Bytes, length, replicate,
  length-replicate, ok,
}
use lowlatency.Kv.Record.{IsKey, IsValue}
use lowlatency.Kv.Store.{KvStore, open_bytes}
use lowlatency.Kv.Store.Loaded.{IsTable, IsLoaded}
use lowlatency.Kv.Store.Opening.{open_bytes-IsLoaded}
use lowlatency.Builder.Snapshot.{Output, SnapshotBuilder, build}
use lowlatency.Builder.Snapshot.Layout.{all_succeed}
use lowlatency.Builder.Snapshot.Built.{IsBuildable, IsBuilt, build-IsBuilt}
use lowlatency.Tests.Hash.{places, places-IsLawful}

-- A key and a value that differ in their first byte.
abbrev pub key_of : ℕ → Bytes
key_of n = n ∷ replicate 63 0

abbrev pub value_of : ℕ → Bytes
value_of n = n ∷ replicate 255 0

pub key_of-IsKey : (n : ℕ) → IsKey (key_of n)
key_of-IsKey n = omega (arith, length-replicate {A = ℕ} 63 0)

pub value_of-IsValue : (n : ℕ) → IsValue (value_of n)
value_of-IsValue n = omega (arith, length-replicate {A = ℕ} 255 0)

abbrev pub two_keys : List Bytes
two_keys = key_of 1 ∷ key_of 2 ∷ []

abbrev pub two_values : List Bytes
two_values = value_of 10 ∷ value_of 20 ∷ []

abbrev pub two_records : SnapshotBuilder
two_records = record { keys = two_keys; values = two_values }

pub key_of-ne : key_of 1 ≢ key_of 2
key_of-ne e = cc

pub two-IsTable : IsTable two_keys two_values
two-IsTable = record {
  keys_sized = (key_of-IsKey 1, (key_of-IsKey 2, tt));
  values_sized = (value_of-IsValue 10, (value_of-IsValue 20, tt));
  keys_distinct = (elim [ inl e ↦ key_of-ne (sym e) | inr e ↦ e ], ((λ e. e), tt));
  as_many = refl;
}

-- Not a digest, but 32 bytes that depend on the data.
pub digest : Bytes → Bytes
digest section = length section % 256 ∷ replicate 31 0

abbrev pub stamp : ℕ
stamp = 1_700_000_000

pub two-IsBuildable : IsBuildable digest stamp two_records
unfolding digest
two-IsBuildable = record {
  digest_sized = λ section. omega (arith, length-replicate {A = ℕ} 31 0);
  timestamp_IsU64 = omega arith;
  table = two-IsTable;
  some_keys = omega arith;
  few_keys = omega arith;
}

abbrev pub no_file : Output
no_file = record { exists = false; contents = [] }

pub two_built :
    (after : Output) × (build places digest all_succeed stamp two_records no_file ≡ (ok tt, after))
    × IsBuilt places digest stamp two_records after
two_built = build-IsBuilt places digest stamp two_records no_file places-IsLawful two-IsBuildable

abbrev pub two_file : Bytes
two_file = two_built.0.contents

abbrev pub two_facts : IsBuilt places digest stamp two_records two_built.0
two_facts = two_built.2

pub two_opened :
    (s : KvStore places) × (open_bytes places two_file ≡ ok s)
    × IsLoaded places s two_keys two_values
    × (s.mmap ≡ two_file)
    × (s.version_info ≡ record {
      build_timestamp = two_facts.header.build_timestamp;
      record_count = two_facts.header.record_count;
      file_size = length two_file;
    })
two_opened =
    open_bytes-IsLoaded places two_file two_facts.header two_facts.index two_facts.mphf two_keys
      two_values two_facts.snapshot

abbrev pub two_store : KvStore places
two_store = two_opened.0

pub two-IsLoaded : IsLoaded places two_store two_keys two_values
two-IsLoaded = two_opened.2
