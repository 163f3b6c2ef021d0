-- ===== src/Validator/Diff/Lines.antt =====
-- The lines that a comparison prints.
use mathlib.Core.List.{append-nil, append_assoc}
use lowlatency.Common.{
  ℕ, zero, suc, ◌+◌, ◌-◌, ◌<◌, ◌≡◌, inl, inr, refl, sym, ap, ◌∙◌, arith, Bytes, Text, List, [], ◌∷◌,
  ◌++◌, length, length-append, take, Option, some, none, ltb, bytes_eq, Bool-cases, ok,
}
use lowlatency.Common.Format.{codes}
use lowlatency.Kv.GoFunction.{GoFunction}
use lowlatency.Kv.Store.{KvStore, is_some}
use lowlatency.Kv.Store.Loaded.{lookup, IsTable, IsLoaded}
use lowlatency.Kv.Store.Lookup.{get-lookup}
use lowlatency.Validator.Check.{CommandError}
use lowlatency.Validator.Diff.{
  Differences, line, count_up, show, compare_value, compare_key, compare_values, compare_keys,
}
use lowlatency.Validator.Diff.Reference.{value_line, key_line, lines_for}

-- As many of the lines are printed as are left up to the limit.
pub record Printed (max_diffs : ℕ) (d after : Differences) (new : List Text) : Type 0 where
  pub lines : after.lines ≡ d.lines ++ take (max_diffs - d.diffs_shown) new
  pub left : max_diffs - after.diffs_shown ≡ max_diffs - d.diffs_shown - length new

take-split_list :
    (n : ℕ) (xs ys : List Text) → take n (xs ++ ys) ≡ take n xs ++ take (n - length xs) ys
take-split_list zero xs ys = let nothing : 0 - length xs ≡ 0 = omega arith in rw nothing refl
take-split_list (suc n) [] ys = let all : suc n - 0 ≡ suc n = omega arith in rw all refl
take-split_list (suc n) (x ∷ xs) ys =
    let less : suc n - suc (length xs) ≡ n - length xs = omega arith in
    rw less (ap (λ (t : List Text). x ∷ t) (take-split_list n xs ys))

take-nil : (n : ℕ) → take {A = Text} n [] ≡ []
take-nil zero = refl
take-nil (suc n) = refl

Printed-none : (max_diffs : ℕ) (d : Differences) → Printed max_diffs d d []
Printed-none max_diffs d =
    let same : take (max_diffs - d.diffs_shown) [] ≡ [] = take-nil (max_diffs - d.diffs_shown) in
    record {
      lines = sym (ap (λ (t : List Text). d.lines ++ t) same ∙ append-nil d.lines);
      left = omega arith;
    }

pub Printed-append :
    (max_diffs : ℕ) (d e after : Differences) (xs ys : List Text)
    → Printed max_diffs d e xs
    → Printed max_diffs e after ys
    → Printed max_diffs d after (xs ++ ys)
Printed-append max_diffs d e after xs ys first second =
    let room : ℕ = max_diffs - d.diffs_shown in
    record {
      lines =
          second.lines
          ∙ (λ i. first.lines i ++ take (first.left i) ys)
          ∙ append_assoc d.lines (take room xs) (take (room - length xs) ys)
          ∙ ap (λ (t : List Text). d.lines ++ t) (sym (take-split_list room xs ys));
      left = omega (arith, first.left, second.left, length-append xs ys);
    }

show-Printed :
    (max_diffs : ℕ) (kind : Text) (key : Bytes) (d : Differences)
    → Printed max_diffs d (show max_diffs kind key d) (line kind key ∷ [])
unfolding show
show-Printed max_diffs kind key d = elim (Bool-cases (ltb d.diffs_shown max_diffs)) [
  | inl more ↦
      let below : d.diffs_shown < max_diffs = ground (arith, more) in
      let some_left : max_diffs - d.diffs_shown ≡ suc (max_diffs - (d.diffs_shown + 1)) =
        omega arith in
      rw more (record {
        lines = sym (
            ap (λ (n : ℕ). d.lines ++ take n (line kind key ∷ [])) some_left
            ∙ ap (λ (t : List Text). d.lines ++ (line kind key ∷ t))
                (take-nil (max_diffs - (d.diffs_shown + 1))));
        left = omega (arith, below);
      })
  | inr full ↦
      let none_left : max_diffs - d.diffs_shown ≡ 0 = ground (arith, full) in
      rw full (record {
        lines =
            sym (
              ap (λ (n : ℕ). d.lines ++ take n (line kind key ∷ [])) none_left
              ∙ append-nil d.lines);
        left = omega (arith, none_left);
      })
]

compare_value-Printed :
    (max_diffs : ℕ) (key value_a : Bytes) (found : Option Bytes) (d : Differences)
    → Printed max_diffs d
        (compare_value max_diffs key value_a found d)
        (value_line (key, value_a) found)
unfolding compare_value value_line
compare_value-Printed max_diffs key value_a none d =
    let p =
      show-Printed max_diffs (codes "IN_A_ONLY") key
        (record d { in_a_only = count_up d.in_a_only }) in
    record { lines = p.lines; left = p.left }
compare_value-Printed max_diffs key value_a (some value_b) d =
    elim (Bool-cases (bytes_eq value_a value_b)) [
      | inl e ↦ rw e (Printed-none max_diffs d)
      | inr e ↦
          let p =
            show-Printed max_diffs (codes "VALUE_DIFF") key
              (record d { value_differs = count_up d.value_differs }) in
          rw e (record { lines = p.lines; left = p.left })
    ]

compare_key-Printed :
    (max_diffs : ℕ) (key value_b : Bytes) (found : Option Bytes) (d : Differences)
    → Printed max_diffs d (compare_key max_diffs key found d) (key_line (key, value_b) found)
unfolding compare_key key_line is_some
compare_key-Printed max_diffs key value_b none d =
    let p =
      show-Printed max_diffs (codes "IN_B_ONLY") key
        (record d { in_b_only = count_up d.in_b_only }) in
    record { lines = p.lines; left = p.left }
compare_key-Printed max_diffs key value_b (some value) d = Printed-none max_diffs d

module _ (go : GoFunction) (max_diffs : ℕ) (s : KvStore go) (keys values : List Bytes)
    (table : IsTable keys values) (loaded : IsLoaded go s keys values) where
  pub compare_values-Printed :
      (pairs : List (Bytes × Bytes)) (d after : Differences)
      → compare_values go max_diffs s pairs d ≡ (ok tt, after)
      → Printed max_diffs d after (lines_for (λ p. value_line p (lookup p.0 keys values)) pairs)
  unfolding compare_values lines_for
  compare_values-Printed [] d after ran =
      let same : d ≡ after = ap (λ r. r.1) ran in rw (← same) (Printed-none max_diffs d)
  compare_values-Printed ((key, value_a) ∷ pairs) d after ran =
      let found : Option Bytes = lookup key keys values in
      let first : Differences = compare_value max_diffs key value_a found d in
      Printed-append max_diffs d first after (value_line (key, value_a) found) _
        (compare_value-Printed max_diffs key value_a found d)
        (compare_values-Printed pairs first after
          (rw (get-lookup go s keys values {E = CommandError} key table loaded) at ran))

  pub compare_keys-Printed :
      (pairs : List (Bytes × Bytes)) (d after : Differences)
      → compare_keys go max_diffs s pairs d ≡ (ok tt, after)
      → Printed max_diffs d after (lines_for (λ p. key_line p (lookup p.0 keys values)) pairs)
  unfolding compare_keys lines_for
  compare_keys-Printed [] d after ran =
      let same : d ≡ after = ap (λ r. r.1) ran in rw (← same) (Printed-none max_diffs d)
  compare_keys-Printed ((key, value_b) ∷ pairs) d after ran =
      let found : Option Bytes = lookup key keys values in
      let first : Differences = compare_key max_diffs key found d in
      Printed-append max_diffs d first after (key_line (key, value_b) found) _
        (compare_key-Printed max_diffs key value_b found d)
        (compare_keys-Printed pairs first after
          (rw (get-lookup go s keys values {E = CommandError} key table loaded) at ran))
