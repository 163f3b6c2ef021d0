-- ===== src/Validator/Diff/Counters.antt =====
-- The counters of a comparison with a store that holds a table.
use lowlatency.Common.{
  ℕ, ◌+◌, ◌%◌, ◌^◌, ◌≤◌, ◌<◌, ◌≡◌, ◌≢◌, ◌↔◌, inl, inr, refl, sym, ap, arith, Bytes, Text, List, [],
  ◌∷◌, length, Option, some, none, ltb, bytes_eq, bytes_eq→eq, eq→bytes_eq, Bool-cases, All, ok,
}
use lowlatency.Common.Format.{codes}
use lowlatency.Kv.GoFunction.{GoFunction}
use lowlatency.Kv.Store.{KvStore, is_some}
use lowlatency.Kv.Store.Loaded.{lookup, IsTable, IsLoaded}
use lowlatency.Kv.Store.Lookup.{get-lookup}
use lowlatency.Validator.Check.{CommandError}
use lowlatency.Validator.Diff.{
  Differences, show, compare_value, compare_key, total, compare_values, compare_keys,
}

-- Printing leaves the counters.
show_counters :
    (max_diffs : ℕ) (kind : Text) (key : Bytes) (d : Differences)
    → ((show max_diffs kind key d).in_a_only ≡ d.in_a_only)
      × ((show max_diffs kind key d).in_b_only ≡ d.in_b_only)
      × ((show max_diffs kind key d).value_differs ≡ d.value_differs)
unfolding show
show_counters max_diffs kind key d = elim (Bool-cases (ltb d.diffs_shown max_diffs)) [
  | inl e ↦ rw e (refl, refl, refl)
  | inr e ↦ rw e (refl, refl, refl)
]

unfoldable pub sum_a : Differences → ℕ
sum_a d = d.in_a_only + d.value_differs

pub total_lem : (d : Differences) → total d ≡ (sum_a d + d.in_b_only) % 2 ^ 32
unfolding sum_a
total_lem d = omega arith

-- The counters after a comparison that found `c` differences for A, and kept the counter of B.
abbrev pub Counted : Differences → Differences → ℕ → ℕ → Type 0
Counted d after a b = (sum_a after ≡ sum_a d + a) × (after.in_b_only ≡ d.in_b_only + b)

compare_value-Counted :
    (max_diffs : ℕ) (key value_a : Bytes) (found : Option Bytes) (d : Differences)
    → sum_a d + 1 < 2 ^ 32
    → (c : ℕ) × (c ≤ 1)
      × Counted d (compare_value max_diffs key value_a found d) c 0
      × ((c ≡ 0) ↔ (found ≡ some value_a))
unfolding compare_value sum_a
compare_value-Counted max_diffs key value_a none d room =
    let (a, b, v) =
      show_counters max_diffs (codes "IN_A_ONLY") key
        (record d { in_a_only = (d.in_a_only + 1) % 2 ^ 32 }) in
    (1, omega arith, (omega arith, omega arith), (λ z. absurd (omega arith), λ e. absurd cc))
compare_value-Counted max_diffs key value_a (some value_b) d room =
    elim (Bool-cases (bytes_eq value_a value_b)) [
      | inl e ↦
          let same : value_a ≡ value_b = bytes_eq→eq value_a value_b e in
          rw e (
            0,
            omega arith,
            (omega arith, omega arith),
            (λ z. ap (λ (x : Bytes). some x) (sym same), λ h. refl),
          )
      | inr e ↦
          let (a, b, v) =
            show_counters max_diffs (codes "VALUE_DIFF") key
              (record d { value_differs = (d.value_differs + 1) % 2 ^ 32 }) in
          let apart : value_a ≢ value_b = λ same. cc (e, eq→bytes_eq value_a value_b same) in
          rw e (
            1,
            omega arith,
            (omega arith, omega arith),
            (λ z. absurd (omega arith), λ h. absurd (apart cc)),
          )
    ]

compare_key-Counted :
    (max_diffs : ℕ) (key : Bytes) (found : Option Bytes) (d : Differences)
    → d.in_b_only + 1 < 2 ^ 32
    → (c : ℕ) × (c ≤ 1)
      × Counted d (compare_key max_diffs key found d) 0 c
      × ((c ≡ 0) ↔ (found ≢ none))
unfolding compare_key sum_a is_some
compare_key-Counted max_diffs key none d room =
    let (a, b, v) =
      show_counters max_diffs (codes "IN_B_ONLY") key
        (record d { in_b_only = (d.in_b_only + 1) % 2 ^ 32 }) in
    (1, omega arith, (omega arith, omega arith), (λ z. absurd (omega arith), λ h. absurd (h refl)))
compare_key-Counted max_diffs key (some value) d room =
    (0, omega arith, (omega arith, omega arith), (λ z e. cc, λ h. refl))

module _ (go : GoFunction) (max_diffs : ℕ) (s : KvStore go) (keys values : List Bytes)
    (table : IsTable keys values) (loaded : IsLoaded go s keys values) where
  -- All entries of the other store against this one: the number of those that differ.
  pub compare_values-Counted :
      (pairs : List (Bytes × Bytes)) (d : Differences)
      → sum_a d + length pairs < 2 ^ 32
      → (after : Differences) × (compare_values go max_diffs s pairs d ≡ (ok tt, after))
        × (c : ℕ) × (c ≤ length pairs)
        × Counted d after c 0
        × ((c ≡ 0) ↔ All (λ (p : Bytes × Bytes). lookup p.0 keys values ≡ some p.1) pairs)
  unfolding compare_values
  compare_values-Counted [] d room =
      (d, refl, 0, omega arith, (omega arith, omega arith), (λ z. tt, λ h. refl))
  compare_values-Counted ((key, value_a) ∷ pairs) d room =
      let found : Option Bytes = lookup key keys values in
      let first : Differences = compare_value max_diffs key value_a found d in
      let (c, few, (sum, other), (to, from)) =
        compare_value-Counted max_diffs key value_a found d (omega arith) in
      let (after, ran, n, many, (sums, others), (each, all)) =
        compare_values-Counted pairs first (omega arith) in
      (
        after,
        rw (get-lookup go s keys values {E = CommandError} key table loaded) ran,
        c + n,
        omega arith,
        (omega arith, omega arith),
        (
          λ z. (to (omega arith), each (omega arith)),
          λ h. let none_here : c ≡ 0 = from h.0 in let none_later : n ≡ 0 = all h.1 in omega arith,
        ),
      )

  pub compare_keys-Counted :
      (pairs : List (Bytes × Bytes)) (d : Differences)
      → d.in_b_only + length pairs < 2 ^ 32
      → (after : Differences) × (compare_keys go max_diffs s pairs d ≡ (ok tt, after))
        × (c : ℕ) × (c ≤ length pairs)
        × Counted d after 0 c
        × ((c ≡ 0) ↔ All (λ (p : Bytes × Bytes). lookup p.0 keys values ≢ none) pairs)
  unfolding compare_keys
  compare_keys-Counted [] d room =
      (d, refl, 0, omega arith, (omega arith, omega arith), (λ z. tt, λ h. refl))
  compare_keys-Counted ((key, value_b) ∷ pairs) d room =
      let found : Option Bytes = lookup key keys values in
      let first : Differences = compare_key max_diffs key found d in
      let (c, few, (sum, other), (to, from)) =
        compare_key-Counted max_diffs key found d (omega arith) in
      let (after, ran, n, many, (sums, others), (each, all)) =
        compare_keys-Counted pairs first (omega arith) in
      (
        after,
        rw (get-lookup go s keys values {E = CommandError} key table loaded) ran,
        c + n,
        omega arith,
        (omega arith, omega arith),
        (
          λ z. (to (omega arith), each (omega arith)),
          λ h. let none_here : c ≡ 0 = from h.0 in let none_later : n ≡ 0 = all h.1 in omega arith,
        ),
      )
