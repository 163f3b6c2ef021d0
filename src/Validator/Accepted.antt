-- ===== src/Validator/Accepted.antt =====
-- The commands `check` and `bench` on any file that opens, a damaged or forged one included.
use lowlatency.Common.{
  refl, Bool, true, false, ℕ, ◌+◌, ◌*◌, ◌^◌, ◌<◌, ◌≡◌, ap, ◌∙◌, arith, Bytes, List, [], ◌∷◌, ◌++◌,
  length, sum, Option, ◌==◌, Bool-cases, inl, inr, if◌then◌else◌, Outcome, ok, err, guard,
}
use lowlatency.Common.Choice.{Choice}
use lowlatency.Common.Format.{codes}
use lowlatency.Kv.GoFunction.{GoFunction, Answers}
use lowlatency.Kv.Header
use lowlatency.Kv.Header.{Header}
use lowlatency.Kv.Record.{record_size}
use lowlatency.Kv.Store
use lowlatency.Kv.Store.{Disk, FilePath, KvStore, open_bytes, open_store, iter, is_some}
use lowlatency.Kv.Store.Sample.{found, lost, drawn, open_bytes-answers}
use lowlatency.Validator.Check.{
  CommandError, ValidationResult, message, status_text, failed_message, print, count_lookups,
  check_snapshot,
}
use lowlatency.Validator.Bench.{benchmark_lookups, benchmark_lookups_ends}

guard_lem :
    (test : Bool) (e : CommandError)
    → ◌≡◌ {A = Outcome CommandError (Unit {0})} (guard test e) (if test then ok tt else err e)
guard_lem true e = refl
guard_lem false e = refl

counts-path :
    {p q f g : ℕ} (printed : List ValidationResult)
    → p ≡ q
    → f ≡ g
    → ◌≡◌ {A = Outcome CommandError (ℕ × ℕ) × List ValidationResult}
        (ok (p, f), printed)
        (ok (q, g), printed)
counts-path printed same_passed same_failed = λ i. (ok (same_passed i, same_failed i), printed)

module _ (go : GoFunction) (s : KvStore go) (answer : Bytes → Option Bytes)
    (answers : (key : Bytes) → Store.get go {E = CommandError} s key ≡ ok (answer key)) where
  count_lookups_lem :
      (sample : List Bytes) (passed failed : ℕ) (printed : List ValidationResult)
      → count_lookups go s sample passed failed printed
        ≡ (ok (passed + sum (found answer) sample, failed + sum (lost answer) sample), printed)
  unfolding count_lookups found lost
  count_lookups_lem [] passed failed printed = counts-path printed (omega arith) (omega arith)
  count_lookups_lem (key ∷ sample) passed failed printed =
      unfold found lost in
      elim (Bool-cases (is_some (answer key))) [
        | inl there ↦
            rw (answers key, there)
              (count_lookups_lem sample (passed + 1) failed printed
                ∙ counts-path printed (omega arith) (omega arith))
        | inr missing ↦
            rw (answers key, missing)
              (count_lookups_lem sample passed (failed + 1) printed
                ∙ counts-path printed (omega arith) (omega arith))
      ]

module _ (go : GoFunction) (disk : Disk) (snapshot : FilePath) (bytes : Bytes) (h : Header)
    (s : KvStore go) (there : disk snapshot ≡ ok bytes) (small : length bytes < 2 ^ 64)
    (parsed : Header.from_bytes bytes ≡ ok h) (opens : open_bytes go bytes ≡ ok s)
    (straight : h.data_offset + h.record_count * record_size < 2 ^ 64)
    (total : Answers go s.mphf.function) where
  -- A file of less than 2^64 bytes, of any contents, that `open` accepts and whose header places
  -- the end of the data section below 2^64, where the hash function that was read from it panics at
  -- no key: the check does not panic, whatever is drawn as a sample. It prints one result, with the
  -- numbers of the sample's keys that a look-up finds and that it does not find; it passes if there
  -- is none of the second kind, and else fails with their number.
  pub check_snapshot_counts :
      (choose : Choice) (elapsed sample_size : ℕ) (printed : List ValidationResult)
      → (pairs : List (Bytes × Bytes)) × (iter go {E = CommandError} s ≡ ok pairs)
        × (length pairs ≡ h.record_count)
        × (answer : Bytes → Option Bytes) × ((key : Bytes)
            → Store.get go {E = CommandError} s key ≡ ok (answer key))
        × (check_snapshot go disk choose elapsed snapshot sample_size printed ≡ (
          if sum (lost answer) (drawn choose pairs sample_size) == 0
              then ok tt
              else err
                  (message (failed_message (sum (lost answer) (drawn choose pairs sample_size)))),
          printed
              ++ (record {
                snapshot = snapshot;
                record_count = Store.len go s;
                sample_size = length (drawn choose pairs sample_size);
                lookups_passed = sum (found answer) (drawn choose pairs sample_size);
                lookups_failed = sum (lost answer) (drawn choose pairs sample_size);
                elapsed_ms = elapsed;
                status = status_text (sum (lost answer) (drawn choose pairs sample_size));
              }
                  ∷ []),
        ))
  unfolding check_snapshot print open_store
  check_snapshot_counts choose elapsed sample_size printed =
      let (pairs, ran, many, answer, answers) =
        open_bytes-answers CommandError go bytes h s small parsed opens straight total in
      let sample : List Bytes = drawn choose pairs sample_size in
      let counted : count_lookups go s sample 0 0 printed
          ≡ (ok (sum (found answer) sample, sum (lost answer) sample), printed) =
        count_lookups_lem go s answer answers sample 0 0 printed
        ∙ counts-path printed (omega arith) (omega arith) in
      let failed : ℕ = sum (lost answer) sample in
      let ended = guard_lem (failed == 0) (message (failed_message failed)) in
      (
        pairs,
        ran,
        many,
        answer,
        answers,
        rw (there, opens, ran, counted)
            (λ i. (
              ended i,
              printed
                  ++ (record {
                    snapshot = snapshot;
                    record_count = Store.len go s;
                    sample_size = length sample;
                    lookups_passed = sum (found answer) sample;
                    lookups_failed = failed;
                    elapsed_ms = elapsed;
                    status = status_text failed;
                  }
                      ∷ []),
            )),
      )

  -- A file of less than 2^64 bytes, of any contents, that `open` accepts and whose header places
  -- the end of the data section below 2^64, where the hash function that was read from it panics at
  -- no key: the benchmark ends, after any number of rounds, the warm-up and the measured ones, with
  -- success, or with an error if the header counts no records.
  pub benchmark_lookups_accepted :
      (iterations warmup : ℕ)
      → benchmark_lookups go disk snapshot iterations warmup
        ≡ (if h.record_count == 0 then err (message (codes "Snapshot is empty")) else ok tt)
  unfolding open_store
  benchmark_lookups_accepted iterations warmup =
      let (pairs, ran, many, answer, answers) =
        open_bytes-answers CommandError go bytes h s small parsed opens straight total in
      benchmark_lookups_ends go s answer answers disk snapshot iterations warmup pairs
        (rw there opens) ran
      ∙ ap (λ (n : ℕ). if n == 0 then err (message (codes "Snapshot is empty")) else ok tt) many
