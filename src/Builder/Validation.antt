-- ===== src/Builder/Validation.antt =====
-- crates/snapshot-builder/src/main.rs: the `validate` command, which looks up a sample of the keys.
pub mod Counted
use lowlatency.Common.{
  ℕ, ◌+◌, ◌%◌, ◌^◌, ◌≡◌, refl, Bytes, Text, List, [], ◌∷◌, ◌++◌, map, length, min, some, ◌&&◌, ltb,
  if◌then◌else◌, All, Outcome, ok, err, map_err, ◌>>=◌,
}
use lowlatency.Common.Choice.{Choice, IsChoice}
use lowlatency.Common.Format.{codes, decimal}
use lowlatency.Kv.Error.{Error}
use lowlatency.Kv.GoFunction.{GoFunction}
use lowlatency.Kv.Store
use lowlatency.Kv.Store.{Disk, FilePath, KvStore, open_store, iter, is_some}
use lowlatency.Kv.Store.Loaded.{IsTable, IsLoaded}
use lowlatency.Kv.Store.Iteration.{iter_sound, sample_found}

pub data ValidationError : Type 0 where
  not_opened : Error → ValidationError
  lookups_failed : Text → ValidationError

unfoldable pub error_text : ℕ → ℕ → Text
error_text errors sample_size =
    decimal errors ++ (codes " out of " ++ (decimal sample_size ++ codes " lookups failed"))

module _ (go : GoFunction) where
  -- The counter is of type i32, here as its 32 bits.
  unfoldable pub count_errors : KvStore go → List Bytes → ℕ → Outcome ValidationError ℕ
  unfolding is_some
  count_errors s [] errors = ok errors
  count_errors s (key ∷ sample) errors = do
    found ← Store.get go s key
    count_errors s sample (if is_some found then errors else (errors + 1) % 2 ^ 32)

  unfoldable pub validate_snapshot :
      Disk → Choice → FilePath → ℕ → Outcome ValidationError (Unit {0})
  unfolding count_errors error_text
  validate_snapshot disk choose snapshot sample_size = do
    store ← map_err not_opened (open_store go disk snapshot)
    pairs ← iter go store
    let keys = map (λ (p : Bytes × Bytes). p.0) pairs
    let sample = choose keys (min sample_size (length keys))
    errors ← count_errors store sample 0
    if ltb 0 errors && ltb errors (2 ^ 31)
        then err (lookups_failed (error_text errors sample_size))
        else ok tt

  count_errors_found :
      (s : KvStore go) (sample : List Bytes) (errors : ℕ)
      → All
          (λ (k : Bytes). (v : Bytes) × (Store.get go {E = ValidationError} s k ≡ ok (some v)))
          sample
      → count_errors s sample errors ≡ ok errors
  unfolding count_errors is_some
  count_errors_found s [] errors found = refl
  count_errors_found s (k ∷ sample) errors ((v, at), found) =
      rw at (count_errors_found s sample errors found)

  -- A store that opens and holds a table is valid, whatever sample of its keys is drawn.
  pub validate_snapshot_passes :
      (s : KvStore go) (keys values : List Bytes) (disk : Disk) (choose : Choice)
      (snapshot : FilePath) (sample_size : ℕ)
      → IsTable keys values
      → IsLoaded go s keys values
      → IsChoice choose
      → open_store go disk snapshot ≡ ok s
      → validate_snapshot disk choose snapshot sample_size ≡ ok tt
  unfolding validate_snapshot
  validate_snapshot_passes s keys values disk choose snapshot sample_size table loaded fair opens =
      let (pairs, ran, many, sound) = iter_sound ValidationError go s keys values table loaded in
      rw
        (
          opens,
          ran,
          count_errors_found s _ 0
              (sample_found ValidationError go s keys values table loaded choose pairs _ fair ran),
        )
        refl
