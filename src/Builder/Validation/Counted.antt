-- ===== src/Builder/Validation/Counted.antt =====
-- The `validate` command on any file that opens, a damaged or forged one included.
use lowlatency.Common.{
  ℕ, zero, suc, ◌+◌, ◌*◌, ◌%◌, ◌^◌, ◌≤◌, ◌<◌, ◌≡◌, ap, ◌∙◌, arith, Bytes, List, [], ◌∷◌, length,
  sum, Option, ◌&&◌, ltb, ◌==◌, Bool-cases, inl, inr, if◌then◌else◌, Outcome, ok, err,
}
use lowlatency.Common.Choice.{Choice, IsChoice}
use lowlatency.Kv.GoFunction.{GoFunction, Answers}
use lowlatency.Kv.Header
use lowlatency.Kv.Header.{Header}
use lowlatency.Kv.Record.{record_size}
use lowlatency.Kv.Store
use lowlatency.Kv.Store.{Disk, FilePath, KvStore, open_bytes, open_store, iter, is_some}
use lowlatency.Kv.Store.Sample.{
  lost, lost_bound, losses_bound, drawn, length-drawn, open_bytes-answers,
}
use lowlatency.Builder.Validation.{
  ValidationError, lookups_failed, error_text, count_errors, validate_snapshot,
}

-- Success without errors, and else a message with their number.
abbrev pub verdict : ℕ → ℕ → Outcome ValidationError (Unit {0})
verdict errors sample_size =
    if errors == 0 then ok tt else err (lookups_failed (error_text errors sample_size))

verdict_lem :
    (errors sample_size : ℕ)
    → errors < 2 ^ 31
    → ◌≡◌ {A = Outcome ValidationError (Unit {0})}
        (if ltb 0 errors && ltb errors (2 ^ 31)
          then err (lookups_failed (error_text errors sample_size))
          else ok tt)
        (verdict errors sample_size)
verdict_lem zero sample_size small = ground arith
verdict_lem (suc n) sample_size small = ground arith

module _ (go : GoFunction) (s : KvStore go) (answer : Bytes → Option Bytes)
    (answers : (key : Bytes) → Store.get go {E = ValidationError} s key ≡ ok (answer key)) where
  count_errors-lost :
      (sample : List Bytes) (errors : ℕ)
      → errors + length sample < 2 ^ 32
      → count_errors go s sample errors ≡ ok (errors + sum (lost answer) sample)
  unfolding count_errors
  count_errors-lost [] errors room = ap (λ (n : ℕ). ok n) (omega arith)
  count_errors-lost (key ∷ sample) errors room =
      let next : (if is_some (answer key) then errors else (errors + 1) % 2 ^ 32)
          ≡ errors + lost answer key =
        unfold lost in
        elim (Bool-cases (is_some (answer key))) [
          | inl there ↦ rw there (omega arith)
          | inr missing ↦ rw missing (omega arith)
        ] in
      rw (answers key, next)
        (count_errors-lost sample (errors + lost answer key) (omega (arith, lost_bound answer key))
          ∙ ap (λ (n : ℕ). ok n) (omega arith))

-- A file of less than 2^64 bytes, of any contents, that `open` accepts, whose header places the end
-- of the data section below 2^64 and counts fewer than 2^31 records, where the hash function that
-- was read from it panics at no key: the command does not panic. It counts the keys of the sample
-- that a look-up does not find; it succeeds if there is none, and else fails with a message that
-- gives their number, out of the sample size that was asked for.
pub validate_snapshot_counts :
    (go : GoFunction) (disk : Disk) (choose : Choice) (snapshot : FilePath) (sample_size : ℕ)
    (bytes : Bytes) (h : Header) (s : KvStore go)
    → IsChoice choose
    → disk snapshot ≡ ok bytes
    → length bytes < 2 ^ 64
    → Header.from_bytes bytes ≡ ok h
    → open_bytes go bytes ≡ ok s
    → h.data_offset + h.record_count * record_size < 2 ^ 64
    → h.record_count < 2 ^ 31
    → Answers go s.mphf.function
    → (pairs : List (Bytes × Bytes)) × (iter go {E = ValidationError} s ≡ ok pairs)
      × (length pairs ≡ h.record_count)
      × (answer : Bytes → Option Bytes) × ((key : Bytes)
          → Store.get go {E = ValidationError} s key ≡ ok (answer key))
      × (validate_snapshot go disk choose snapshot sample_size
          ≡ verdict (sum (lost answer) (drawn choose pairs sample_size)) sample_size)
unfolding validate_snapshot open_store
validate_snapshot_counts go disk choose snapshot sample_size bytes h s fair there small parsed opens
      straight few total =
    let (pairs, ran, many, answer, answers) =
      open_bytes-answers ValidationError go bytes h s small parsed opens straight total in
    let sample : List Bytes = drawn choose pairs sample_size in
    let sized : length sample ≤ length pairs = length-drawn choose pairs sample_size fair in
    let errors : ℕ = sum (lost answer) sample in
    let none_before : 0 + errors ≡ errors = omega arith in
    (
      pairs,
      ran,
      many,
      answer,
      answers,
      rw
          (
            there,
            opens,
            ran,
            count_errors-lost go s answer answers sample 0 (omega arith),
            none_before,
          )
          (verdict_lem errors sample_size (omega (arith, losses_bound answer sample))),
    )
