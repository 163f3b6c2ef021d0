-- ===== src/Validator/Diff/Equal.antt =====
-- Two snapshots show no difference when, and only when, they hold the same table.
use lowlatency.Common.{
  Option-cases, ℕ, ◌+◌, ◌^◌, ◌<◌, ◌≡◌, ◌≢◌, ◌↔◌, inl, inr, refl, sym, ◌∙◌, arith, Bytes, List, [],
  ◌∷◌, ◌++◌, length, some, none, bytes_eq, bytes_eq→eq, Bool-cases, Elem, All, All-Elem, All-imp,
  ok,
}
use lowlatency.Common.Format.{codes}
use lowlatency.Kv.GoFunction.{GoFunction}
use lowlatency.Kv.Store.{Disk, FilePath, KvStore, open_store, iter}
use lowlatency.Kv.Store.Loaded.{lookup, IsTable, IsLoaded}
use lowlatency.Kv.Store.Iteration.{iter_sound, iter_complete}
use lowlatency.Validator.Check.{CommandError}
use lowlatency.Validator.Diff.{Differences, no_differences, total, diff_snapshots, size_line}
use lowlatency.Validator.Diff.Counters.{
  sum_a, total_lem, compare_values-Counted, compare_keys-Counted,
}

lookup-Elem :
    (key : Bytes) (keys values : List Bytes) (v : Bytes)
    → lookup key keys values ≡ some v
    → Elem key keys
unfolding lookup
lookup-Elem key [] values v h = absurd cc
lookup-Elem key (k ∷ keys) [] v h = absurd cc
lookup-Elem key (k ∷ keys) (w ∷ values) v h = elim (Bool-cases (bytes_eq k key)) [
  | inl e ↦ inl (bytes_eq→eq k key e)
  | inr e ↦ inr (lookup-Elem key keys values v (rw e at h))
]

module _ (go : GoFunction) (a b : KvStore go) (keys_a values_a keys_b values_b : List Bytes)
    (table_a : IsTable keys_a values_a) (loaded_a : IsLoaded go a keys_a values_a)
    (table_b : IsTable keys_b values_b) (loaded_b : IsLoaded go b keys_b values_b) where
  -- When no entry of A differs in B and no key of B is missing in A, the tables agree.
  agree :
      (pairs_a pairs_b : List (Bytes × Bytes))
      → iter go {E = CommandError} a ≡ ok pairs_a
      → iter go {E = CommandError} b ≡ ok pairs_b
      → All (λ (p : Bytes × Bytes). lookup p.0 keys_b values_b ≡ some p.1) pairs_a
      → All (λ (p : Bytes × Bytes). lookup p.0 keys_a values_a ≢ none) pairs_b
      → (key : Bytes) → lookup key keys_a values_a ≡ lookup key keys_b values_b
  agree pairs_a pairs_b ran_a ran_b same present key =
      elim (Option-cases (lookup key keys_a values_a)) [
        | inr (v, at) ↦
            let (pairs, ran, there) =
              iter_complete CommandError go a keys_a values_a table_a loaded_a key v
                (lookup-Elem key keys_a values_a v at) at in
            let listed : pairs ≡ pairs_a = cc in
            at ∙ sym (All-Elem _ (key, v) pairs_a same (rw listed at there))
        | inl missing ↦ elim (Option-cases (lookup key keys_b values_b)) [
          | inl also ↦ missing ∙ sym also
          | inr (w, at) ↦
              let (pairs, ran, there) =
                iter_complete CommandError go b keys_b values_b table_b loaded_b key w
                  (lookup-Elem key keys_b values_b w at) at in
              let listed : pairs ≡ pairs_b = cc in
              absurd (All-Elem _ (key, w) pairs_b present (rw listed at there) missing)
        ]
      ]

  -- The comparison of two stores that hold tables of fewer than 2^32 entries together succeeds. The
  -- sum of the differences that it counts is zero if and only if both tables give every key the
  -- same answer, whatever number of differences is to be printed.
  pub diff_snapshots_equal :
      (disk : Disk) (snapshot_a snapshot_b : FilePath) (max_diffs : ℕ)
      → open_store go disk snapshot_a ≡ ok a
      → open_store go disk snapshot_b ≡ ok b
      → length keys_a + length keys_b < 2 ^ 32
      → (d : Differences) × (diff_snapshots go disk snapshot_a snapshot_b max_diffs no_differences
          ≡ (ok tt, d))
        × ((total d ≡ 0)
            ↔ ((key : Bytes) → lookup key keys_a values_a ≡ lookup key keys_b values_b))
  unfolding diff_snapshots
  diff_snapshots_equal disk snapshot_a snapshot_b max_diffs opens_a opens_b small =
      let (pairs_a, ran_a, many_a, sound_a) =
        iter_sound CommandError go a keys_a values_a table_a loaded_a in
      let (pairs_b, ran_b, many_b, sound_b) =
        iter_sound CommandError go b keys_b values_b table_b loaded_b in
      let start : Differences = record no_differences {
        lines = [] ++ (size_line go (codes "A") a ∷ (size_line go (codes "B") b ∷ []));
      } in
      let zero_sum : sum_a start ≡ 0 = unfold sum_a in refl in
      let (d, first, n, few, (sum_n, keep_n), (to_a, from_a)) =
        compare_values-Counted go max_diffs b keys_b values_b table_b loaded_b pairs_a start
          (omega arith) in
      let (after, second, m, few_m, (sum_m, keep_m), (to_b, from_b)) =
        compare_keys-Counted go max_diffs a keys_a values_a table_a loaded_a pairs_b d
          (omega arith) in
      let counted : total after ≡ n + m = omega (arith, total_lem after) in
      (
        after,
        rw (opens_a, opens_b, ran_a, first, ran_b) second,
        (
          λ none_at_all.
              agree pairs_a pairs_b ran_a ran_b (to_a (omega arith)) (to_b (omega arith)),
          λ same.
              let none_a : n ≡ 0 = from_a (All-imp (λ p at. sym (same p.0) ∙ at) pairs_a sound_a) in
              let none_b : m ≡ 0 =
                from_b (All-imp (λ p at missing. cc (at, missing, same p.0)) pairs_b sound_b) in
              omega arith,
        ),
      )
