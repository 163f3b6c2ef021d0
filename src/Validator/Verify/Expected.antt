-- ===== src/Validator/Verify/Expected.antt =====
-- What the `verify` command counts, and when it succeeds.
use lowlatency.Common.{
  ℕ, zero, suc, ◌+◌, ◌-◌, ◌^◌, ◌≤◌, ◌<◌, ◌≡◌, inl, inr, refl, ap, ◌∙◌, arith, Bytes, List, [], ◌∷◌,
  ◌++◌, length, map, take, sum, slice, Option, some, none, Bool, false, ◌&&◌, ◌==◌, bytes_eq,
  Bool-cases, if◌then◌else◌, All, IsByte, Outcome, ok, err, index_range, index_range_lem,
}
use lowlatency.Common.Format.{hex_encode}
use lowlatency.Kv.GoFunction.{GoFunction}
use lowlatency.Kv.Record.{IsValue, key_size, value_size}
use lowlatency.Kv.Store.{Disk, FilePath, KvStore, open_store}
use lowlatency.Kv.Store.Loaded.{lookup, IsTable, IsLoaded}
use lowlatency.Kv.Store.Lookup.{get-lookup}
use lowlatency.Validator.Check.{CommandError, message}
use lowlatency.Validator.Hex.{hex_decode-hex_encode}
use lowlatency.Validator.Pairs.{ExpectedPair, Counts, pass, fail, judge, verify_pair, verify_pairs}
use lowlatency.Validator.Verify.{is_positive, failed_message, verify_expected}

-- The pair for a key and the front of a value.
abbrev pub pair_of : Bytes × Bytes → ExpectedPair
pair_of p = record { key = hex_encode p.0; value = hex_encode p.1 }

-- Bytes for a key, of any length, and at most as many bytes as a value has.
abbrev pub IsExpectation : Bytes × Bytes → Type 0
IsExpectation p = All IsByte p.0 × All IsByte p.1 × (length p.1 ≤ value_size)

-- Whether the answer is a value that starts with the expected bytes.
unfoldable pub begins : Bytes → Option Bytes → Bool
begins expected none = false
begins expected (some value) = bytes_eq (take (length expected) value) expected

-- What a pair is to add to each of the two counters: nothing, if its key is none.
unfoldable pub hit : List Bytes → List Bytes → Bytes × Bytes → ℕ
unfolding begins
hit keys values p = if (length p.0 == key_size) && begins p.1 (lookup p.0 keys values) then 1 else 0

unfoldable pub miss : List Bytes → List Bytes → Bytes × Bytes → ℕ
unfolding begins
miss keys values p =
    if length p.0 == key_size then (if begins p.1 (lookup p.0 keys values) then 0 else 1) else 0

abbrev added : Counts → ℕ → ℕ → Counts
added c passed failed = record { passed = c.passed + passed; failed = c.failed + failed }

-- Room for some more counts.
abbrev HasRoom : Counts → ℕ → Type 0
HasRoom c n = (c.passed + n < 2 ^ 32) × (c.failed + n < 2 ^ 32)

Counts-path :
    {c d : Counts}
    → c.passed ≡ d.passed
    → c.failed ≡ d.failed
    → ◌≡◌ {A = Outcome CommandError Counts} (ok c) (ok d)
Counts-path p q = λ i. ok (record { passed = p i; failed = q i })

judge-added :
    (expected : Bytes) (found : Option Bytes) (c : Counts)
    → length expected ≤ value_size
    → ((v : Bytes) → found ≡ some v → IsValue v)
    → HasRoom c 1
    → judge expected found c ≡ ok (if begins expected found then added c 1 0 else added c 0 1)
unfolding judge pass fail slice begins
judge-added expected none c short sized room = Counts-path (omega arith) (omega arith)
judge-added expected (some value) c short sized room =
    let long : IsValue value = sized value refl in
    let front : index_range {E = CommandError} 0 (length expected) value
        ≡ ok (take (length expected) value) =
      let none_before : length expected - 0 ≡ length expected = omega arith in
      index_range_lem 0 (length expected) value (omega arith) (omega arith)
      ∙ ap (λ (n : ℕ). ok (take n value)) none_before in
    elim (Bool-cases (bytes_eq (take (length expected) value) expected)) [
      | inl e ↦ rw (front, e) (Counts-path (omega arith) (omega arith))
      | inr e ↦ rw (front, e) (Counts-path (omega arith) (omega arith))
    ]

lookup-IsValue :
    (key v : Bytes) (keys values : List Bytes)
    → All IsValue values
    → lookup key keys values ≡ some v
    → IsValue v
unfolding lookup
lookup-IsValue key v [] values sized at = absurd cc
lookup-IsValue key v (k ∷ keys) [] sized at = absurd cc
lookup-IsValue key v (k ∷ keys) (w ∷ values) (long, sized) at = elim (Bool-cases (bytes_eq k key)) [
  | inl e ↦ let same : w ≡ v = cc (rw e at at) in rw (← same) long
  | inr e ↦ lookup-IsValue key v keys values sized (rw e at at)
]

-- Fewer than 2^31 failures are as many on an i32.
outcome_lem :
    (n : ℕ)
    → n < 2 ^ 31
    → ◌≡◌ {A = Outcome CommandError (Unit {0})}
        (if is_positive n then err (message (failed_message n)) else ok tt)
        (if n == 0 then ok tt else err (message (failed_message n)))
unfolding is_positive
outcome_lem zero small = ground arith
outcome_lem (suc n) small = ground arith

module _ (go : GoFunction) (s : KvStore go) (keys values : List Bytes) (table : IsTable keys values)
    (loaded : IsLoaded go s keys values) where
  verify_pair-added :
      (p : Bytes × Bytes) (c : Counts)
      → IsExpectation p
      → HasRoom c 1
      → verify_pair go s (pair_of p) c ≡ ok (added c (hit keys values p) (miss keys values p))
  unfolding verify_pair hit miss
  verify_pair-added p c (key_bytes, value_bytes, short) room =
      elim (Bool-cases (length p.0 == key_size)) [
        | inr other ↦
            rw (hex_decode-hex_encode p.0 key_bytes, hex_decode-hex_encode p.1 value_bytes, other)
              (Counts-path (omega arith) (omega arith))
        | inl sized ↦
            let found : Option Bytes = lookup p.0 keys values in
            let judged : judge p.1 found c
                ≡ ok (if begins p.1 found then added c 1 0 else added c 0 1) =
              judge-added p.1 found c short
                (λ v at. lookup-IsValue p.0 v keys values table.values_sized at) room in
            let ran : verify_pair go s (pair_of p) c ≡ judge p.1 found c =
              rw
                (
                  hex_decode-hex_encode p.0 key_bytes,
                  hex_decode-hex_encode p.1 value_bytes,
                  sized,
                  get-lookup go s keys values {E = CommandError} p.0 table loaded,
                )
                refl in
            elim (Bool-cases (begins p.1 found)) [
              | inl e ↦ ran ∙ judged ∙ rw (sized, e) (Counts-path (omega arith) (omega arith))
              | inr e ↦ ran ∙ judged ∙ rw (sized, e) (Counts-path (omega arith) (omega arith))
            ]
      ]

  hit_or_miss : (p : Bytes × Bytes) → hit keys values p + miss keys values p ≤ 1
  unfolding hit miss
  hit_or_miss p = ground arith

  verify_pairs-added :
      (entries : List (Bytes × Bytes)) (c : Counts)
      → All IsExpectation entries
      → HasRoom c (length entries)
      → verify_pairs go s (map pair_of entries) c
        ≡ ok (added c (sum (hit keys values) entries) (sum (miss keys values) entries))
  unfolding verify_pairs
  verify_pairs-added [] c good room = Counts-path (omega arith) (omega arith)
  verify_pairs-added (p ∷ entries) c (one, good) room =
      let h : hit keys values p + miss keys values p ≤ 1 = hit_or_miss p in
      rw (verify_pair-added p c one (omega arith, omega arith)) (
        verify_pairs-added entries (added c (hit keys values p) (miss keys values p)) good
          (omega arith, omega arith)
        ∙ Counts-path (omega arith) (omega arith))

  misses_bound : (entries : List (Bytes × Bytes)) → sum (miss keys values) entries ≤ length entries
  misses_bound [] = omega arith
  misses_bound (p ∷ entries) = omega (arith, hit_or_miss p, misses_bound entries)

  -- For a store that opens and holds a table, and fewer than 2^31 pairs, each the text of bytes for
  -- a key and of at most 256 bytes, the command prints how many of the pairs with a key of 64 bytes
  -- have a value in the table that starts with the expected bytes, and how many do not. A pair with
  -- a key of another size is in neither number. The command succeeds if the second number is zero,
  -- and else it fails with the message that gives this number.
  pub verify_expected_counts :
      (disk : Disk) (snapshot : FilePath) (entries : List (Bytes × Bytes)) (printed : List Counts)
      → open_store go disk snapshot ≡ ok s
      → All IsExpectation entries
      → length entries < 2 ^ 31
      → verify_expected go disk snapshot (ok (map pair_of entries)) printed ≡ (
        if sum (miss keys values) entries == 0
            then ok tt
            else err (message (failed_message (sum (miss keys values) entries))),
        printed
            ++ (record {
              passed = sum (hit keys values) entries;
              failed = sum (miss keys values) entries;
            }
                ∷ []),
      )
  unfolding verify_expected
  verify_expected_counts disk snapshot entries printed opens good few =
      let passed : ℕ = sum (hit keys values) entries in
      let failed : ℕ = sum (miss keys values) entries in
      let counted : verify_pairs go s (map pair_of entries) (record { passed = 0; failed = 0 })
          ≡ ok (record { passed = passed; failed = failed }) =
        verify_pairs-added entries (record { passed = 0; failed = 0 }) good
          (omega arith, omega arith)
        ∙ Counts-path (omega arith) (omega arith) in
      rw (opens, counted)
        (λ i. (
          outcome_lem failed (omega (arith, misses_bound entries)) i,
          printed ++ (record { passed = passed; failed = failed } ∷ []),
        ))
