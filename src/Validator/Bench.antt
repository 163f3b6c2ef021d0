-- ===== src/Validator/Bench.antt =====
-- crates/validator/src/main.rs: the `bench` command, without its measurements.
use lowlatency.Common.{
  ℕ, zero, suc, ◌+◌, ◌%◌, ◌<◌, ◌≡◌, refl, ap, ◌∙◌, arith, Bytes, List, [], ◌∷◌, length, length-map,
  map, Option, some, none, ◌==◌, Bool-cases, inl, inr, if◌then◌else◌, Outcome, ok, err, unwrap,
  map_err, ◌>>=◌, ◌>>◌,
}
use native.Mathlib.Nat.{mod-lt}
use lowlatency.Common.Format.{codes}
use lowlatency.Kv.GoFunction.{GoFunction}
use lowlatency.Kv.Store
use lowlatency.Kv.Store.{Disk, FilePath, KvStore, open_store, iter}
use lowlatency.Kv.Store.Loaded.{lookup, IsTable, IsLoaded}
use lowlatency.Kv.Store.Lookup.{get-lookup}
use lowlatency.Kv.Store.Iteration.{iter_sound}
use lowlatency.Validator.Check.{CommandError, not_opened, message}

-- `keys[i]`
element : List Bytes → ℕ → Option Bytes
element [] i = none
element (key ∷ keys) zero = some key
element (key ∷ keys) (suc i) = element keys i

module _ (go : GoFunction) where
  -- The rounds from the `i`-th on, with the count of those that are left; what is found is dropped.
  unfoldable pub look_up_rounds : KvStore go → List Bytes → ℕ → ℕ → Outcome CommandError (Unit {0})
  unfolding element
  look_up_rounds s keys zero i = ok tt
  look_up_rounds s keys (suc left) i = do
    key ← unwrap (element keys (i % length keys))
    found ← Store.get go s key
    look_up_rounds s keys left (i + 1)

  unfoldable pub benchmark_lookups : Disk → FilePath → ℕ → ℕ → Outcome CommandError (Unit {0})
  unfolding look_up_rounds
  benchmark_lookups disk snapshot iterations warmup = do
    store ← map_err not_opened (open_store go disk snapshot)
    touched ← map_err not_opened (Store.preload go store)
    pairs ← iter go store
    let keys = map (λ (p : Bytes × Bytes). p.0) pairs
    if length keys == 0 then err (message (codes "Snapshot is empty")) else ok tt
    look_up_rounds store keys warmup 0
    look_up_rounds store keys iterations 0

  element_inside :
      (keys : List Bytes) (i : ℕ) → i < length keys → (key : Bytes) × (element keys i ≡ some key)
  unfolding element
  element_inside [] i low = absurd (omega arith)
  element_inside (key ∷ keys) zero low = (key, refl)
  element_inside (key ∷ keys) (suc i) low = element_inside keys i (omega arith)

  -- On a store that answers all look-ups and can be iterated the benchmark ends.
  module _ (s : KvStore go) (answer : Bytes → Option Bytes)
      (answers : (key : Bytes) → Store.get go {E = CommandError} s key ≡ ok (answer key)) where
    look_up_rounds_total :
        (found : List Bytes) (left i : ℕ) → 0 < length found → look_up_rounds s found left i ≡ ok tt
    unfolding look_up_rounds
    look_up_rounds_total found zero i some_keys = refl
    look_up_rounds_total found (suc left) i some_keys =
        let (key, at) = element_inside found (i % length found) (mod-lt i some_keys) in
        rw (at, answers key) (look_up_rounds_total found left (i + 1) some_keys)

    pub benchmark_lookups_ends :
        (disk : Disk) (snapshot : FilePath) (iterations warmup : ℕ) (pairs : List (Bytes × Bytes))
        → open_store go disk snapshot ≡ ok s
        → iter go {E = CommandError} s ≡ ok pairs
        → benchmark_lookups disk snapshot iterations warmup
          ≡ (if length pairs == 0 then err (message (codes "Snapshot is empty")) else ok tt)
    unfolding benchmark_lookups Store.preload
    benchmark_lookups_ends disk snapshot iterations warmup pairs opens ran =
        let found : List Bytes = map (λ (p : Bytes × Bytes). p.0) pairs in
        let sized : length found ≡ length pairs = length-map pairs (λ (p : Bytes × Bytes). p.0) in
        elim (Bool-cases (length pairs == 0)) [
          | inl empty ↦ rw (opens, ran, ap (λ n. n == 0) sized, empty) refl
          | inr some_keys ↦
              let many_found : 0 < length found = ground (arith, sized, some_keys) in
              rw
                (
                  opens,
                  ran,
                  ap (λ n. n == 0) sized,
                  some_keys,
                  look_up_rounds_total found warmup 0 many_found,
                  look_up_rounds_total found iterations 0 many_found,
                )
                refl
        ]

  -- On a store that opens and holds a table the benchmark ends: with an error if the table is
  -- empty, and else with success after any number of rounds, the warm-up and the measured ones.
  pub benchmark_lookups_total :
      (s : KvStore go) (keys values : List Bytes)
      → IsTable keys values
      → IsLoaded go s keys values
      → (disk : Disk) (snapshot : FilePath) (iterations warmup : ℕ)
      → open_store go disk snapshot ≡ ok s
      → benchmark_lookups disk snapshot iterations warmup
        ≡ (if length keys == 0 then err (message (codes "Snapshot is empty")) else ok tt)
  benchmark_lookups_total s keys values table loaded disk snapshot iterations warmup opens =
      let (pairs, ran, many, sound) = iter_sound CommandError go s keys values table loaded in
      benchmark_lookups_ends s (λ key. lookup key keys values)
        (λ key. get-lookup go s keys values {E = CommandError} key table loaded) disk snapshot
        iterations warmup pairs opens ran
      ∙ ap (λ (n : ℕ). if n == 0 then err (message (codes "Snapshot is empty")) else ok tt) many
