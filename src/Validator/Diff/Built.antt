-- ===== src/Validator/Diff/Built.antt =====
-- The comparison of two files that the builder has written.
use mathlib.Core.List.{zip}
use lowlatency.Common.{ℕ, ◌+◌, ◌^◌, ◌<◌, ◌≡◌, ◌↔◌, Bytes, length, ok}
use lowlatency.Kv.GoFunction.{GoFunction, IsLawful}
use lowlatency.Kv.Store.{Disk, FilePath, open_store}
use lowlatency.Kv.Store.Contents.{contents, contents-lookup, lookup-contents}
use lowlatency.Builder.Snapshot.{Output, SnapshotBuilder, build}
use lowlatency.Builder.Snapshot.Layout.{all_succeed}
use lowlatency.Builder.Snapshot.Built.{IsBuildable}
use lowlatency.Builder.Snapshot.Order.{build-IsLoaded}
use lowlatency.Validator.Diff.{Differences, no_differences, total, diff_snapshots}
use lowlatency.Validator.Diff.Equal.{diff_snapshots_equal}

-- The command `diff` on two files that were built from fewer than 2^32 records together, at any
-- times, succeeds, and it counts no difference if and only if the two builders held the same
-- records up to their order.
pub diff_snapshots-build :
    (go : GoFunction) (sha256 : Bytes → Bytes) (a b : SnapshotBuilder) (timestamp_a timestamp_b : ℕ)
    (before_a before_b : Output) (disk : Disk) (snapshot_a snapshot_b : FilePath) (max_diffs : ℕ)
    → IsLawful go
    → IsBuildable sha256 timestamp_a a
    → IsBuildable sha256 timestamp_b b
    → disk snapshot_a ≡ ok (build go sha256 all_succeed timestamp_a a before_a).1.contents
    → disk snapshot_b ≡ ok (build go sha256 all_succeed timestamp_b b before_b).1.contents
    → length a.keys + length b.keys < 2 ^ 32
    → (d : Differences) × (diff_snapshots go disk snapshot_a snapshot_b max_diffs no_differences
        ≡ (ok tt, d))
      × ((total d ≡ 0) ↔ (contents (zip a.keys a.values) ≡ contents (zip b.keys b.values)))
diff_snapshots-build go sha256 a b timestamp_a timestamp_b before_a before_b disk snapshot_a
      snapshot_b max_diffs lawful ready_a ready_b there_a there_b few =
    let (s, opens_s, loaded_s) = build-IsLoaded go sha256 timestamp_a a before_a lawful ready_a in
    let (t, opens_t, loaded_t) = build-IsLoaded go sha256 timestamp_b b before_b lawful ready_b in
    let found_s : open_store go disk snapshot_a ≡ ok s = unfold open_store in rw there_a opens_s in
    let found_t : open_store go disk snapshot_b ≡ ok t = unfold open_store in rw there_b opens_t in
    let (d, ran, equal) =
      diff_snapshots_equal go s t a.keys a.values b.keys b.values ready_a.table loaded_s
        ready_b.table loaded_t disk snapshot_a snapshot_b max_diffs found_s found_t few in
    let apart_a = ready_a.table.keys_distinct in
    let apart_b = ready_b.table.keys_distinct in
    (
      d,
      ran,
      (
        λ none_counted.
            lookup-contents a.keys a.values b.keys b.values apart_a apart_b (equal.0 none_counted),
        λ same.
            equal.1
              (λ key. contents-lookup a.keys a.values b.keys b.values key apart_a apart_b same),
      ),
    )
