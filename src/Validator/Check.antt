-- ===== src/Validator/Check.antt =====
-- crates/validator/src/main.rs: the `check` command, which looks up a sample of a snapshot's keys.
use lowlatency.Common.{
  ℕ, ◌+◌, ◌≡◌, ap, ◌∙◌, arith, Bytes, Text, List, [], ◌∷◌, ◌++◌, map, length, length-map, min, some,
  ◌==◌, if◌then◌else◌, All, ok, guard, map_err,
}
use lowlatency.Common.Action.{Action, lift, modify, ◌>>=◌, ◌>>◌}
use lowlatency.Common.Choice.{Choice, IsChoice}
use lowlatency.Common.Format.{codes, decimal}
use lowlatency.Kv.Error.{Error}
use lowlatency.Kv.GoFunction.{GoFunction}
use lowlatency.Kv.Store
use lowlatency.Kv.Store.{Disk, FilePath, KvStore, open_store, iter, is_some}
use lowlatency.Kv.Store.Loaded.{IsTable, IsLoaded}
use lowlatency.Kv.Store.Iteration.{iter_sound, sample_found}

pub data CommandError : Type 0 where
  not_opened : Error → CommandError
  message : Text → CommandError

pub record ValidationResult : Type 0 where
  pub snapshot : FilePath
  pub record_count : ℕ
  pub sample_size : ℕ
  pub lookups_passed : ℕ
  pub lookups_failed : ℕ
  pub elapsed_ms : ℕ
  pub status : Text

unfoldable pub status_text : ℕ → Text
status_text failed = if failed == 0 then codes "PASS" else codes "FAIL"

unfoldable pub failed_message : ℕ → Text
failed_message failed = decimal failed ++ codes " lookups failed"

-- A command, with the results that it has printed.
abbrev pub Command : Type 0 → Type 0
Command A = Action (List ValidationResult) CommandError A

unfoldable pub print : ValidationResult → Command Unit
print result = modify (λ printed. printed ++ (result ∷ []))

module _ (go : GoFunction) where
  -- The counts of the keys that were found and of those that were not.
  unfoldable pub count_lookups : KvStore go → List Bytes → ℕ → ℕ → Command (ℕ × ℕ)
  unfolding is_some
  count_lookups s [] passed failed = lift (ok (passed, failed))
  count_lookups s (key ∷ sample) passed failed = do
    found ← lift (Store.get go s key)
    if is_some found
        then count_lookups s sample (passed + 1) failed
        else count_lookups s sample passed (failed + 1)

  unfoldable pub check_snapshot : Disk → Choice → ℕ → FilePath → ℕ → Command Unit
  unfolding count_lookups print status_text failed_message
  check_snapshot disk choose elapsed snapshot sample_size = do
    store ← lift (map_err not_opened (open_store go disk snapshot))
    pairs ← lift (iter go store)
    let keys = map (λ (p : Bytes × Bytes). p.0) pairs
    let sample = choose keys (min sample_size (length keys))
    counts ← count_lookups store sample 0 0
    print (record {
      snapshot = snapshot;
      record_count = Store.len go store;
      sample_size = length sample;
      lookups_passed = counts.0;
      lookups_failed = counts.1;
      elapsed_ms = elapsed;
      status = status_text counts.1;
    })
    lift (guard (counts.1 == 0) (message (failed_message counts.1)))

  -- The keys of a sample are all found: each is counted as passed.
  count_lookups_found :
      (s : KvStore go) (sample : List Bytes) (passed failed : ℕ) (printed : List ValidationResult)
      → All
          (λ (k : Bytes). (v : Bytes) × (Store.get go {E = CommandError} s k ≡ ok (some v)))
          sample
      → count_lookups s sample passed failed printed
        ≡ (ok (passed + length sample, failed), printed)
  unfolding count_lookups is_some
  count_lookups_found s [] passed failed printed found =
      ap (λ (n : ℕ). (ok (n, failed), printed)) (omega arith)
  count_lookups_found s (k ∷ sample) passed failed printed ((v, at), found) = rw at (
      count_lookups_found s sample (passed + 1) failed printed found
      ∙ ap (λ (n : ℕ). (ok (n, failed), printed)) (omega arith))

  module _ (s : KvStore go) (keys values : List Bytes) (table : IsTable keys values)
      (loaded : IsLoaded go s keys values) where
    -- The check of a store that opens and holds a table passes, whatever sample is chosen: it
    -- prints one result, in which all of the sample, which has the size asked for or that of the
    -- table, passed and nothing failed.
    pub check_snapshot_passes :
        (disk : Disk) (choose : Choice) (elapsed : ℕ) (snapshot : FilePath) (sample_size : ℕ)
        (printed : List ValidationResult)
        → IsChoice choose
        → open_store go disk snapshot ≡ ok s
        → check_snapshot disk choose elapsed snapshot sample_size printed ≡ (
          ok tt,
          printed
              ++ (record {
                snapshot = snapshot;
                record_count = length keys;
                sample_size = min sample_size (length keys);
                lookups_passed = min sample_size (length keys);
                lookups_failed = 0;
                elapsed_ms = elapsed;
                status = codes "PASS";
              }
                  ∷ []),
        )
    unfolding check_snapshot print status_text Store.len
    check_snapshot_passes disk choose elapsed snapshot sample_size printed fair opens =
        let (pairs, ran, counted, sound) = iter_sound CommandError go s keys values table loaded in
        let found : List Bytes = map (λ (p : Bytes × Bytes). p.0) pairs in
        let sample : List Bytes = choose found (min sample_size (length found)) in
        let sized : length sample ≡ min sample_size (length keys) =
          fair.as_many found _ ∙ omega (arith, length-map pairs (λ (p : Bytes × Bytes). p.0)) in
        let passed : 0 + length sample ≡ min sample_size (length keys) = omega arith in
        rw
          (
            opens,
            ran,
            count_lookups_found s sample 0 0 printed
                (sample_found CommandError go s keys values table loaded choose pairs _ fair ran),
          )
          (λ i. (
            ok tt,
            printed
                ++ (record {
                  snapshot = snapshot;
                  record_count = loaded.counted i;
                  sample_size = sized i;
                  lookups_passed = passed i;
                  lookups_failed = 0;
                  elapsed_ms = elapsed;
                  status = codes "PASS";
                }
                    ∷ []),
          ))
