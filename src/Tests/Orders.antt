-- ===== src/Tests/Orders.antt =====
-- A snapshot of two records and one of the same records in the other order.
use mathlib.Core.List.{zip}
use mathlib.Core.List
use mathlib.Core.List.Perm
use mathlib.Mathlib.Data.Multiset.Defs.{coe-eq-coe}
use lowlatency.Common.{
  sum, ◌+◌, ◌≡◌, ◌↔◌, refl, arith, inl, inr, Bytes, List, [], ◌∷◌, bytes_eq, if◌then◌else◌, ok, ◌≢◌,
  sym, min, replicate, length, take, ◌++◌, ◌<◌, ◌^◌,
}
use lowlatency.Common.Format.{codes, decimal}
use lowlatency.Kv.Error.{Error}
use lowlatency.Kv.Store
use lowlatency.Kv.Store.{Disk, KvStore, open_bytes, iter, open_store}
use lowlatency.Kv.Store.Contents.{contents, iter-contents}
use lowlatency.Builder.Snapshot.{SnapshotBuilder, build}
use lowlatency.Builder.Snapshot.Layout.{all_succeed}
use lowlatency.Builder.Snapshot.Built.{IsBuildable}
use lowlatency.Builder.Snapshot.Order.{build-contents, build-IsLoaded}
use lowlatency.Validator.Diff.{Differences, no_differences, total, diff_snapshots}
use lowlatency.Validator.Diff.Built.{diff_snapshots-build}
use lowlatency.Kv.Store.Loaded.{IsLoaded, lookup}
use lowlatency.Validator.Diff.Reference
use lowlatency.Validator.Check.{CommandError}
use lowlatency.Validator.Diff.Reference.{
  value_line, key_line, lines_for, missing, missing_in, changed_in,
}
use lowlatency.Validator.Diff.Exact.{diff_snapshots_counts}
use lowlatency.Tests.Data.{
  two_file, two_opened, key_of, value_of, key_of-IsKey, value_of-IsValue, key_of-ne, two_keys,
  two_values, two-IsTable, two_records, digest, stamp, two-IsBuildable, no_file, two_store,
  two-IsLoaded,
}
use lowlatency.Tests.Hash.{places, places-IsLawful}

abbrev swapped : SnapshotBuilder
swapped = record { keys = key_of 2 ∷ key_of 1 ∷ []; values = value_of 20 ∷ value_of 10 ∷ [] }

swapped-IsBuildable : IsBuildable digest (stamp + 1) swapped
swapped-IsBuildable = record {
  digest_sized = two-IsBuildable.digest_sized;
  timestamp_IsU64 = omega arith;
  table = record {
    keys_sized = (key_of-IsKey 2, (key_of-IsKey 1, tt));
    values_sized = (value_of-IsValue 20, (value_of-IsValue 10, tt));
    keys_distinct = (elim [ inl e ↦ key_of-ne e | inr e ↦ e ], ((λ e. e), tt));
    as_many = refl;
  };
  some_keys = omega arith;
  few_keys = omega arith;
}

same_records : contents (zip two_keys two_values) ≡ contents (zip swapped.keys swapped.values)
unfolding zip List.zip_with
same_records = coe-eq-coe.1 (Perm.swap (key_of 2, value_of 20) (key_of 1, value_of 10) [])

iter-contents_example :
    (pairs : List (Bytes × Bytes)) × (iter places {E = Error} two_store ≡ ok pairs)
    × (contents pairs ≡ contents (zip two_keys two_values))
iter-contents_example =
    iter-contents Error places two_store two_keys two_values two-IsTable two-IsLoaded

build-contents_example :
    (s t : KvStore places) × (open_bytes places
        (build places digest all_succeed stamp two_records no_file).1.contents
      ≡ ok s)
    × (open_bytes places (build places digest all_succeed (stamp + 1) swapped no_file).1.contents
        ≡ ok t)
    × (Store.get places {E = Error} s (key_of 2) ≡ Store.get places {E = Error} t (key_of 2))
    × (pairs_a pairs_b : List (Bytes × Bytes)) × (iter places {E = Error} s ≡ ok pairs_a)
    × (iter places {E = Error} t ≡ ok pairs_b)
    × (contents pairs_a ≡ contents pairs_b)
    × (contents pairs_a ≡ contents (zip two_keys two_values))
build-contents_example =
    build-contents places digest two_records swapped stamp (stamp + 1) no_file no_file (key_of 2)
      places-IsLawful two-IsBuildable swapped-IsBuildable same_records

abbrev disk : Disk
disk path =
    if bytes_eq path (codes "a.bin")
    then ok (build places digest all_succeed stamp two_records no_file).1.contents
    else ok (build places digest all_succeed (stamp + 1) swapped no_file).1.contents

at_a :
    disk (codes "a.bin") ≡ ok (build places digest all_succeed stamp two_records no_file).1.contents
unfolding bytes_eq
at_a = refl

at_b :
    disk (codes "b.bin")
    ≡ ok (build places digest all_succeed (stamp + 1) swapped no_file).1.contents
unfolding bytes_eq
at_b = refl

diff_snapshots-build_example :
    (d : Differences) × (diff_snapshots places disk
        (codes "a.bin")
        (codes "b.bin")
        100
        no_differences
      ≡ (ok tt, d))
    × ((total d ≡ 0)
        ↔ (contents (zip two_keys two_values) ≡ contents (zip swapped.keys swapped.values)))
diff_snapshots-build_example =
    diff_snapshots-build places digest two_records swapped stamp (stamp + 1) no_file no_file disk
      (codes "a.bin") (codes "b.bin") 100 places-IsLawful two-IsBuildable swapped-IsBuildable at_a
      at_b (omega arith)

-- Two records of which one has another value, and one another key.
abbrev changed : SnapshotBuilder
changed = record { keys = key_of 2 ∷ key_of 3 ∷ []; values = value_of 21 ∷ value_of 30 ∷ [] }

changed_keys-ne : key_of 2 ≢ key_of 3
changed_keys-ne e = cc

changed-IsBuildable : IsBuildable digest stamp changed
changed-IsBuildable = record {
  digest_sized = two-IsBuildable.digest_sized;
  timestamp_IsU64 = omega arith;
  table = record {
    keys_sized = (key_of-IsKey 2, (key_of-IsKey 3, tt));
    values_sized = (value_of-IsValue 21, (value_of-IsValue 30, tt));
    keys_distinct = (elim [ inl e ↦ changed_keys-ne (sym e) | inr e ↦ e ], ((λ e. e), tt));
    as_many = refl;
  };
  some_keys = omega arith;
  few_keys = omega arith;
}

changed_store :
    (s : KvStore places) × (open_bytes places
        (build places digest all_succeed stamp changed no_file).1.contents
      ≡ ok s)
    × IsLoaded places s changed.keys changed.values
changed_store =
    build-IsLoaded places digest stamp changed no_file places-IsLawful changed-IsBuildable

abbrev changed_disk : Disk
changed_disk path =
    if bytes_eq path (codes "a.bin")
    then ok two_file
    else ok (build places digest all_succeed stamp changed no_file).1.contents

opens_a : open_store places changed_disk (codes "a.bin") ≡ ok two_store
unfolding open_store bytes_eq
opens_a = two_opened.1

opens_b : open_store places changed_disk (codes "b.bin") ≡ ok changed_store.0
unfolding open_store bytes_eq
opens_b = changed_store.1

-- One entry of each kind.
one_of_each :
    (sum (missing_in changed.keys changed.values) (zip two_keys two_values) ≡ 1)
    × (sum (changed_in changed.keys changed.values) (zip two_keys two_values) ≡ 1)
    × (sum (missing_in two_keys two_values) (zip changed.keys changed.values) ≡ 1)
unfolding missing Reference.changed lookup bytes_eq zip List.zip_with replicate
one_of_each = (refl, refl, refl)

diff_snapshots_counts_example :
    (d : Differences) × (diff_snapshots places changed_disk
        (codes "a.bin")
        (codes "b.bin")
        2
        no_differences
      ≡ (ok tt, d))
    × (d.in_a_only ≡ sum (missing_in changed.keys changed.values) (zip two_keys two_values))
    × (d.value_differs ≡ sum (changed_in changed.keys changed.values) (zip two_keys two_values))
    × (d.in_b_only ≡ sum (missing_in two_keys two_values) (zip changed.keys changed.values))
    × (d.in_a_only < 2 ^ 31)
    × (d.value_differs < 2 ^ 31)
    × (d.in_b_only < 2 ^ 31)
    × (length d.lines ≡ 2 + min 2 (d.in_a_only + d.value_differs + d.in_b_only))
    × (pairs_a : List (Bytes × Bytes)) × (iter places {E = CommandError} two_store ≡ ok pairs_a)
    × (pairs_b : List (Bytes × Bytes)) × (iter places {E = CommandError} changed_store.0
        ≡ ok pairs_b)
    × (d.lines
        ≡ (codes "Snapshot A: " ++ (decimal (length two_keys) ++ codes " records"))
          ∷ ((codes "Snapshot B: " ++ (decimal (length changed.keys) ++ codes " records"))
              ∷ take 2 (
                  lines_for (λ p. value_line p (lookup p.0 changed.keys changed.values)) pairs_a
                  ++ lines_for (λ p. key_line p (lookup p.0 two_keys two_values)) pairs_b)))
diff_snapshots_counts_example =
    diff_snapshots_counts places two_store changed_store.0 two_keys two_values changed.keys
      changed.values two-IsTable two-IsLoaded changed-IsBuildable.table changed_store.2 changed_disk
      (codes "a.bin") (codes "b.bin") 2 opens_a opens_b (omega arith) (omega arith)
