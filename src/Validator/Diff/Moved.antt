-- ===== src/Validator/Diff/Moved.antt =====
-- How each comparison moves the counters, and how many lines it prints.
use lowlatency.Common.{
  sum, ℕ, ◌+◌, ◌^◌, ◌≤◌, ◌<◌, ◌≡◌, inl, inr, refl, ap, arith, Bytes, Text, List, [], ◌∷◌, length,
  length-append, min, Option, some, none, ltb, bytes_eq, Bool-cases, ok,
}
use lowlatency.Common.Format.{codes}
use lowlatency.Kv.GoFunction.{GoFunction}
use lowlatency.Kv.Store.{KvStore, is_some}
use lowlatency.Kv.Store.Loaded.{lookup, IsTable, IsLoaded}
use lowlatency.Kv.Store.Lookup.{get-lookup}
use lowlatency.Validator.Check.{CommandError}
use lowlatency.Validator.Diff.{
  Differences, line, count_up, show, compare_value, compare_key, compare_values, compare_keys,
}
use lowlatency.Validator.Diff.Reference.{
  missing, changed, missing_in, changed_in, missing_bound, changed_bound,
}

-- A comparison moves its counters, and prints a line for each difference up to the limit.
pub record Moved (max_diffs : ℕ) (d after : Differences) (a v b : ℕ) : Type 0 where
  pub only_a : after.in_a_only ≡ d.in_a_only + a
  pub only_b : after.in_b_only ≡ d.in_b_only + b
  pub differ : after.value_differs ≡ d.value_differs + v
  pub shown : after.diffs_shown ≡ min max_diffs (d.diffs_shown + (a + v + b))
  pub printed : length after.lines + d.diffs_shown ≡ length d.lines + after.diffs_shown

-- Room for that many more differences.
pub record HasRoom (max_diffs : ℕ) (d : Differences) (a b : ℕ) : Type 0 where
  pub room_a : d.in_a_only + a < 2 ^ 32
  pub room_v : d.value_differs + a < 2 ^ 32
  pub room_b : d.in_b_only + b < 2 ^ 32
  pub limited : d.diffs_shown ≤ max_diffs

show-Moved :
    (max_diffs : ℕ) (kind : Text) (key : Bytes) (d e : Differences) (a v b : ℕ)
    → d.diffs_shown ≤ max_diffs
    → e.in_a_only ≡ d.in_a_only + a
    → e.in_b_only ≡ d.in_b_only + b
    → e.value_differs ≡ d.value_differs + v
    → e.diffs_shown ≡ d.diffs_shown
    → e.lines ≡ d.lines
    → a + v + b ≡ 1
    → Moved max_diffs d (show max_diffs kind key e) a v b
unfolding show
show-Moved max_diffs kind key d e a v b limited x y z same same_lines one =
    elim (Bool-cases (ltb e.diffs_shown max_diffs)) [
      | inl more ↦
          let below : e.diffs_shown < max_diffs = ground (arith, more) in
          let longer = length-append e.lines (line kind key ∷ []) in
          let same_length : length e.lines ≡ length d.lines = ap length same_lines in
          rw more (omega (arith, below, longer, same_length))
      | inr full ↦
          let above : max_diffs ≤ e.diffs_shown = ground (arith, full) in
          let same_length : length e.lines ≡ length d.lines = ap length same_lines in
          rw full (omega (arith, above, same_length))
    ]

compare_value-Moved :
    (max_diffs : ℕ) (key value_a : Bytes) (found : Option Bytes) (d : Differences)
    → HasRoom max_diffs d 1 0
    → Moved max_diffs d
        (compare_value max_diffs key value_a found d)
        (missing found)
        (changed value_a found)
        0
unfolding compare_value missing changed
compare_value-Moved max_diffs key value_a none d r =
    show-Moved max_diffs (codes "IN_A_ONLY") key d (record d { in_a_only = count_up d.in_a_only }) 1
      0 0 r.limited (omega (arith, r.room_a)) (omega arith) (omega arith) refl refl refl
compare_value-Moved max_diffs key value_a (some value_b) d r =
    elim (Bool-cases (bytes_eq value_a value_b)) [
      | inl e ↦ rw e (omega (arith, r.limited))
      | inr e ↦ rw e (
          show-Moved max_diffs (codes "VALUE_DIFF") key d
            (record d { value_differs = count_up d.value_differs }) 0 1 0 r.limited (omega arith)
            (omega arith) (omega (arith, r.room_v)) refl refl refl)
    ]

compare_key-Moved :
    (max_diffs : ℕ) (key : Bytes) (found : Option Bytes) (d : Differences)
    → HasRoom max_diffs d 0 1
    → Moved max_diffs d (compare_key max_diffs key found d) 0 0 (missing found)
unfolding compare_key is_some missing
compare_key-Moved max_diffs key none d r =
    show-Moved max_diffs (codes "IN_B_ONLY") key d (record d { in_b_only = count_up d.in_b_only }) 0
      0 1 r.limited (omega arith) (omega (arith, r.room_b)) (omega arith) refl refl refl
compare_key-Moved max_diffs key (some value) d r = omega (arith, r.limited)

module _ (go : GoFunction) (max_diffs : ℕ) (s : KvStore go) (keys values : List Bytes)
    (table : IsTable keys values) (loaded : IsLoaded go s keys values) where
  pub compare_values-Moved :
      (pairs : List (Bytes × Bytes)) (d : Differences)
      → HasRoom max_diffs d (length pairs) 0
      → (after : Differences) × (compare_values go max_diffs s pairs d ≡ (ok tt, after))
        × Moved max_diffs d after
            (sum (missing_in keys values) pairs)
            (sum (changed_in keys values) pairs)
            0
  unfolding compare_values
  compare_values-Moved [] d r = (d, refl, omega (arith, r.limited))
  compare_values-Moved ((key, value_a) ∷ pairs) d r =
      let found : Option Bytes = lookup key keys values in
      let first : Differences = compare_value max_diffs key value_a found d in
      let m =
        compare_value-Moved max_diffs key value_a found d
          (omega (arith, r.room_a, r.room_v, r.room_b, r.limited)) in
      let one = missing_bound found in
      let other = changed_bound value_a found in
      let (after, ran, n) = compare_values-Moved pairs first (
        omega (
          arith, r.room_a, r.room_v, r.room_b, r.limited, m.only_a, m.only_b, m.differ, m.shown,
          one, other,
        )) in
      (
        after,
        rw (get-lookup go s keys values {E = CommandError} key table loaded) ran,
        omega (
          arith, m.only_a, m.only_b, m.differ, m.shown, m.printed, n.only_a, n.only_b, n.differ,
          n.shown, n.printed,
        ),
      )

  pub compare_keys-Moved :
      (pairs : List (Bytes × Bytes)) (d : Differences)
      → HasRoom max_diffs d 0 (length pairs)
      → (after : Differences) × (compare_keys go max_diffs s pairs d ≡ (ok tt, after))
        × Moved max_diffs d after 0 0 (sum (missing_in keys values) pairs)
  unfolding compare_keys
  compare_keys-Moved [] d r = (d, refl, omega (arith, r.limited))
  compare_keys-Moved ((key, value_b) ∷ pairs) d r =
      let found : Option Bytes = lookup key keys values in
      let first : Differences = compare_key max_diffs key found d in
      let m =
        compare_key-Moved max_diffs key found d
          (omega (arith, r.room_a, r.room_v, r.room_b, r.limited)) in
      let one = missing_bound found in
      let (after, ran, n) = compare_keys-Moved pairs first (
        omega (
          arith, r.room_a, r.room_v, r.room_b, r.limited, m.only_a, m.only_b, m.differ, m.shown,
          one,
        )) in
      (
        after,
        rw (get-lookup go s keys values {E = CommandError} key table loaded) ran,
        omega (
          arith, m.only_a, m.only_b, m.differ, m.shown, m.printed, n.only_a, n.only_b, n.differ,
          n.shown, n.printed,
        ),
      )
