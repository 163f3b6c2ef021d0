-- ===== src/Validator/Diff/Exact.antt =====
-- The exact counts of a comparison, and how many lines it prints.
use mathlib.Core.List.{zip}
use lowlatency.Common.{
  ◌-◌, ◌≤◌, Text, take, ◌∙◌, sum, ℕ, ◌+◌, ◌^◌, ◌<◌, ◌≡◌, arith, Bytes, List, [], ◌∷◌, ◌++◌, length,
  min, ok,
}
use lowlatency.Common.Format.{codes, decimal}
use lowlatency.Kv.GoFunction.{GoFunction}
use lowlatency.Kv.Store
use lowlatency.Kv.Store.{Disk, FilePath, KvStore, open_store, iter}
use lowlatency.Kv.Store.Loaded.{lookup, IsTable, IsLoaded}
use lowlatency.Kv.Store.Iteration.{iter_sound}
use lowlatency.Kv.Store.Contents.{iter-contents}
use lowlatency.Validator.Check.{CommandError}
use lowlatency.Validator.Diff.{Differences, no_differences, size_line, diff_snapshots}
use lowlatency.Validator.Diff.Reference.{
  sum-contents, sum_bound, missing_in, changed_in, missing_bound, changed_bound, value_line,
  key_line, lines_for,
}
use lowlatency.Validator.Diff.Lines.{Printed-append, compare_values-Printed, compare_keys-Printed}
use lowlatency.Validator.Diff.Moved.{compare_values-Moved, compare_keys-Moved}

module _ (go : GoFunction) (a b : KvStore go) (keys_a values_a keys_b values_b : List Bytes)
    (table_a : IsTable keys_a values_a) (loaded_a : IsLoaded go a keys_a values_a)
    (table_b : IsTable keys_b values_b) (loaded_b : IsLoaded go b keys_b values_b) where
  -- The comparison of two stores that hold tables of fewer than 2^31 entries each succeeds. Its
  -- counters, which are then not negative, are the number of entries of A whose key B does not
  -- have, of those whose key has another value in B, and of the entries of B whose key A does not
  -- have. It prints the sizes of the two snapshots, and behind them the first lines, up to the
  -- number that is asked for, of one line for each difference: those of the entries of A in the
  -- order of its iteration, then those of B, each with its kind and the first 16 bytes of the key.
  pub diff_snapshots_counts :
      (disk : Disk) (snapshot_a snapshot_b : FilePath) (max_diffs : ℕ)
      → open_store go disk snapshot_a ≡ ok a
      → open_store go disk snapshot_b ≡ ok b
      → length keys_a < 2 ^ 31
      → length keys_b < 2 ^ 31
      → (d : Differences) × (diff_snapshots go disk snapshot_a snapshot_b max_diffs no_differences
          ≡ (ok tt, d))
        × (d.in_a_only ≡ sum (missing_in keys_b values_b) (zip keys_a values_a))
        × (d.value_differs ≡ sum (changed_in keys_b values_b) (zip keys_a values_a))
        × (d.in_b_only ≡ sum (missing_in keys_a values_a) (zip keys_b values_b))
        × (d.in_a_only < 2 ^ 31)
        × (d.value_differs < 2 ^ 31)
        × (d.in_b_only < 2 ^ 31)
        × (length d.lines ≡ 2 + min max_diffs (d.in_a_only + d.value_differs + d.in_b_only))
        × (pairs_a : List (Bytes × Bytes)) × (iter go {E = CommandError} a ≡ ok pairs_a)
        × (pairs_b : List (Bytes × Bytes)) × (iter go {E = CommandError} b ≡ ok pairs_b)
        × (d.lines
            ≡ (codes "Snapshot A: " ++ (decimal (length keys_a) ++ codes " records"))
              ∷ ((codes "Snapshot B: " ++ (decimal (length keys_b) ++ codes " records"))
                  ∷ take max_diffs (
                      lines_for (λ p. value_line p (lookup p.0 keys_b values_b)) pairs_a
                      ++ lines_for (λ p. key_line p (lookup p.0 keys_a values_a)) pairs_b)))
  unfolding diff_snapshots size_line Store.len
  diff_snapshots_counts disk snapshot_a snapshot_b max_diffs opens_a opens_b few_a few_b =
      let (pairs_a, ran_a, all_a) =
        iter-contents CommandError go a keys_a values_a table_a loaded_a in
      let (pairs_b, ran_b, all_b) =
        iter-contents CommandError go b keys_b values_b table_b loaded_b in
      let (found_a, again_a, many_a, sound_a) =
        iter_sound CommandError go a keys_a values_a table_a loaded_a in
      let (found_b, again_b, many_b, sound_b) =
        iter_sound CommandError go b keys_b values_b table_b loaded_b in
      let start : Differences = record no_differences {
        lines = [] ++ (size_line go (codes "A") a ∷ (size_line go (codes "B") b ∷ []));
      } in
      let same_a : found_a ≡ pairs_a = cc (ran_a, again_a) in
      let same_b : found_b ≡ pairs_b = cc (ran_b, again_b) in
      let sized_a : length pairs_a ≡ length keys_a = rw same_a at many_a in
      let sized_b : length pairs_b ≡ length keys_b = rw same_b at many_b in
      let (d, first, m) =
        compare_values-Moved go max_diffs b keys_b values_b table_b loaded_b pairs_a start
          (omega (arith, sized_a, few_a)) in
      let (after, second, n) =
        compare_keys-Moved go max_diffs a keys_a values_a table_a loaded_a pairs_b d (
          omega (
            arith,
            sized_a,
            sized_b,
            few_a,
            few_b,
            m.only_a,
            m.only_b,
            m.differ,
            m.shown,
            sum_bound (missing_in keys_b values_b) pairs_a
                (λ p. missing_bound (lookup p.0 keys_b values_b)),
            sum_bound (changed_in keys_b values_b) pairs_a
                (λ p. changed_bound p.1 (lookup p.0 keys_b values_b)),
          )) in
      let counted_a =
        sum-contents (missing_in keys_b values_b) pairs_a (zip keys_a values_a) all_a in
      let counted_v =
        sum-contents (changed_in keys_b values_b) pairs_a (zip keys_a values_a) all_a in
      let counted_b =
        sum-contents (missing_in keys_a values_a) pairs_b (zip keys_b values_b) all_b in
      let few_missing_a : sum (missing_in keys_b values_b) pairs_a ≤ length pairs_a =
        sum_bound (missing_in keys_b values_b) pairs_a
          (λ p. missing_bound (lookup p.0 keys_b values_b)) in
      let few_changed : sum (changed_in keys_b values_b) pairs_a ≤ length pairs_a =
        sum_bound (changed_in keys_b values_b) pairs_a
          (λ p. changed_bound p.1 (lookup p.0 keys_b values_b)) in
      let few_missing_b : sum (missing_in keys_a values_a) pairs_b ≤ length pairs_b =
        sum_bound (missing_in keys_a values_a) pairs_b
          (λ p. missing_bound (lookup p.0 keys_a values_a)) in
      let printed =
        Printed-append max_diffs start d after _ _
          (compare_values-Printed go max_diffs b keys_b values_b table_b loaded_b pairs_a start d
            first)
          (compare_keys-Printed go max_diffs a keys_a values_a table_a loaded_a pairs_b d after
            second) in
      let whole : max_diffs - 0 ≡ max_diffs = omega arith in
      let new : List Text =
        lines_for (λ p. value_line p (lookup p.0 keys_b values_b)) pairs_a
        ++ lines_for (λ p. key_line p (lookup p.0 keys_a values_a)) pairs_b in
      (
        after,
        rw (opens_a, opens_b, ran_a, first, ran_b) second,
        omega (arith, m.only_a, n.only_a, counted_a),
        omega (arith, m.differ, n.differ, counted_v),
        omega (arith, m.only_b, n.only_b, counted_b),
        omega (arith, m.only_a, n.only_a, few_missing_a, sized_a, few_a),
        omega (arith, m.differ, n.differ, few_changed, sized_a, few_a),
        omega (arith, m.only_b, n.only_b, few_missing_b, sized_b, few_b),
        omega (
          arith, m.only_a, n.only_a, m.only_b, n.only_b, m.differ, n.differ, m.shown, n.shown,
          m.printed, n.printed,
        ),
        pairs_a,
        ran_a,
        pairs_b,
        ran_b,
        printed.lines ∙ λ i.
            (codes "Snapshot A: " ++ (decimal (loaded_a.counted i) ++ codes " records"))
            ∷ ((codes "Snapshot B: " ++ (decimal (loaded_b.counted i) ++ codes " records"))
                ∷ take (whole i) new),
      )
