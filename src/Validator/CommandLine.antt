-- ===== src/Validator/CommandLine.antt =====
-- crates/validator/src/main.rs: the commands, over the files that they read and what they print.
use lowlatency.Common.{
  ℕ, ◌^◌, ◌<◌, ◌≡◌, refl, arith, Bytes, Text, List, [], ◌∷◌, length, min, Bool, ◌==◌, false,
  Outcome, ok, err, panic,
}
use lowlatency.Common.Choice.{Choice, IsChoice}
use lowlatency.Common.Format.{codes}
use lowlatency.Kv.GoFunction.{GoFunction}
use lowlatency.Kv.Store.{Disk, FilePath, KvStore, open_store}
use lowlatency.Kv.Store.Loaded.{IsTable, IsLoaded}
use lowlatency.Validator.Check.{
  CommandError, ValidationResult, check_snapshot, check_snapshot_passes,
}
use lowlatency.Validator.Pairs.{ExpectedPair, Counts}
use lowlatency.Validator.Verify.{verify_expected}
use lowlatency.Validator.Bench.{benchmark_lookups, benchmark_lookups_total}
use lowlatency.Validator.Diff.{Differences, no_differences, total, diff_snapshots}
use lowlatency.Validator.Diff.Equal.{diff_snapshots_equal}

-- `json` chooses the form in which a result is printed.
pub data Commands : Type 0 where
  check : (snapshot : FilePath) (sample_size : ℕ) (json : Bool) → Commands
  verify : (snapshot expected : FilePath) (json : Bool) → Commands
  bench : (snapshot : FilePath) (iterations warmup : ℕ) → Commands
  diff : (snapshot_a snapshot_b : FilePath) (max_diffs : ℕ) → Commands

-- What a command has printed: the results of checks, the counts of a verification, and the
-- differences of a comparison.
pub record Console : Type 0 where
  pub results : List ValidationResult
  pub counts : List Counts
  pub differences : Differences

abbrev pub blank : Console
blank = record { results = []; counts = []; differences = no_differences }

-- `parse` reads the pairs from the text of a file, `choose` draws a sample and `elapsed` is the
-- time that a check takes.
module _ (go : GoFunction) (parse : Bytes → Outcome Text (List ExpectedPair)) (choose : Choice)
    (elapsed : ℕ) where
  expected_pairs : Outcome Text Bytes → Outcome Text (List ExpectedPair)
  expected_pairs (ok contents) = parse contents
  expected_pairs (err e) = err e
  expected_pairs panic = panic

  unfoldable pub main : Disk → Commands → Outcome CommandError (Unit {0}) × Console
  unfolding expected_pairs
  main disk (check snapshot sample_size json) =
      let (outcome, printed) = check_snapshot go disk choose elapsed snapshot sample_size [] in
      (outcome, record blank { results = printed })
  main disk (verify snapshot expected json) =
      let (outcome, printed) =
        verify_expected go disk snapshot (expected_pairs (disk expected)) [] in
      (outcome, record blank { counts = printed })
  main disk (bench snapshot iterations warmup) =
      (benchmark_lookups go disk snapshot iterations warmup, blank)
  main disk (diff snapshot_a snapshot_b max_diffs) =
      let (outcome, printed) =
        diff_snapshots go disk snapshot_a snapshot_b max_diffs no_differences in
      (outcome, record blank { differences = printed })

  module _ (s : KvStore go) (keys values : List Bytes) (table : IsTable keys values)
      (loaded : IsLoaded go s keys values) where
    -- On a snapshot that opens to a store with a table of from 1 to 2^31 - 1 entries, the commands
    -- `check`, for any sample that is drawn, `bench`, for any number of rounds, and `diff`, here
    -- with itself, succeed. The check prints that the whole sample passed, and the comparison
    -- counts no difference.
    pub main_accepts :
        (disk : Disk) (snapshot : FilePath) (sample_size iterations warmup max_diffs : ℕ)
        (json : Bool)
        → IsChoice choose
        → open_store go disk snapshot ≡ ok s
        → 0 < length keys
        → length keys < 2 ^ 31
        → (main disk (check snapshot sample_size json) ≡ (
          ok tt,
          record blank {
            results =
                record {
                  snapshot = snapshot;
                  record_count = length keys;
                  sample_size = min sample_size (length keys);
                  lookups_passed = min sample_size (length keys);
                  lookups_failed = 0;
                  elapsed_ms = elapsed;
                  status = codes "PASS";
                }
                ∷ [];
          },
        ))
          × (main disk (bench snapshot iterations warmup) ≡ (ok tt, blank))
          × (d : Differences) × (main disk (diff snapshot snapshot max_diffs)
              ≡ (ok tt, record blank { differences = d }))
          × (total d ≡ 0)
    unfolding main
    main_accepts disk snapshot sample_size iterations warmup max_diffs json fair opens some_keys
          few =
        let (d, ran, equal) =
          diff_snapshots_equal go s s keys values keys values table loaded table loaded disk
            snapshot snapshot max_diffs opens opens (omega arith) in
        let checked =
          check_snapshot_passes go s keys values table loaded disk choose elapsed snapshot
            sample_size [] fair opens in
        let timed =
          benchmark_lookups_total go s keys values table loaded disk snapshot iterations warmup
            opens in
        let many : (length keys == 0) ≡ false = ground (arith, some_keys) in
        (rw checked refl, rw (timed, many) refl, d, rw ran refl, equal.1 (λ key. refl))
