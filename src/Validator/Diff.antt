-- ===== src/Validator/Diff.antt =====
-- crates/validator/src/main.rs: the `diff` command, which compares two snapshots.
pub mod Counters
pub mod Equal
pub mod Built
pub mod Reference
pub mod Moved
pub mod Lines
pub mod Exact
use lowlatency.Common.{
  ℕ, ◌+◌, ◌%◌, ◌^◌, Bytes, Text, List, [], ◌∷◌, ◌++◌, take, Option, some, none, ltb, bytes_eq,
  if◌then◌else◌, map_err, ok,
}
use lowlatency.Common.Action.{Action, lift, modify, ◌>>=◌, ◌>>◌}
use lowlatency.Common.Format.{codes, decimal, hex_encode}
use lowlatency.Kv.GoFunction.{GoFunction}
use lowlatency.Kv.Store
use lowlatency.Kv.Store.{Disk, FilePath, KvStore, open_store, iter, is_some}
use lowlatency.Validator.Check.{CommandError, not_opened}

-- The counters of a comparison, and the lines that it has printed. The first three counters are of
-- type i32, here as their 32 bits.
pub record Differences : Type 0 where
  pub in_a_only : ℕ
  pub in_b_only : ℕ
  pub value_differs : ℕ
  pub diffs_shown : ℕ
  pub lines : List Text

abbrev pub Comparison : Type 0 → Type 0
Comparison A = Action Differences CommandError A

abbrev pub no_differences : Differences
no_differences = record {
  in_a_only = 0;
  in_b_only = 0;
  value_differs = 0;
  diffs_shown = 0;
  lines = [];
}

-- `count += 1` on an i32, kept as its 32 bits: those of 2^31 and more are negative to the code.
abbrev pub count_up : ℕ → ℕ
count_up n = (n + 1) % 2 ^ 32

-- The line of a difference, with the first 16 bytes of the key.
pub line : Text → Bytes → Text
line kind key = kind ++ (codes ": key=" ++ hex_encode (take 16 key))

unfoldable pub show : ℕ → Text → Bytes → Differences → Differences
unfolding line
show max_diffs kind key d =
    if ltb d.diffs_shown max_diffs
    then record d { diffs_shown = d.diffs_shown + 1; lines = d.lines ++ (line kind key ∷ []) }
    else d

-- What a key and its value in A add, when B answers the key with `found`.
unfoldable pub compare_value : ℕ → Bytes → Bytes → Option Bytes → Differences → Differences
unfolding show
compare_value max_diffs key value_a none d =
    show max_diffs (codes "IN_A_ONLY") key (record d { in_a_only = count_up d.in_a_only })
compare_value max_diffs key value_a (some value_b) d =
    if bytes_eq value_a value_b
    then d
    else show max_diffs (codes "VALUE_DIFF") key
        (record d { value_differs = count_up d.value_differs })

unfoldable pub compare_key : ℕ → Bytes → Option Bytes → Differences → Differences
unfolding show is_some
compare_key max_diffs key found d =
    if is_some found
    then d
    else show max_diffs (codes "IN_B_ONLY") key (record d { in_b_only = count_up d.in_b_only })

-- `in_a_only + in_b_only + value_differs`
abbrev pub total : Differences → ℕ
total d = (d.in_a_only + d.in_b_only + d.value_differs) % 2 ^ 32

module _ (go : GoFunction) where
  -- All keys of A.
  unfoldable pub compare_values : ℕ → KvStore go → List (Bytes × Bytes) → Comparison Unit
  unfolding compare_value
  compare_values max_diffs store_b [] = lift (ok tt)
  compare_values max_diffs store_b ((key, value_a) ∷ pairs) = do
    found ← lift (Store.get go store_b key)
    modify (compare_value max_diffs key value_a found)
    compare_values max_diffs store_b pairs

  -- The keys only in B.
  unfoldable pub compare_keys : ℕ → KvStore go → List (Bytes × Bytes) → Comparison Unit
  unfolding compare_key
  compare_keys max_diffs store_a [] = lift (ok tt)
  compare_keys max_diffs store_a ((key, value_b) ∷ pairs) = do
    found ← lift (Store.get go store_a key)
    modify (compare_key max_diffs key found)
    compare_keys max_diffs store_a pairs

  unfoldable pub size_line : Text → KvStore go → Text
  size_line name s =
      codes "Snapshot " ++ (name ++ (codes ": " ++ (decimal (Store.len go s) ++ codes " records")))

  -- Up to the summary, which prints the counters and their sum.
  unfoldable pub diff_snapshots : Disk → FilePath → FilePath → ℕ → Comparison Unit
  unfolding compare_values compare_keys size_line
  diff_snapshots disk snapshot_a snapshot_b max_diffs = do
    store_a ← lift (map_err not_opened (open_store go disk snapshot_a))
    store_b ← lift (map_err not_opened (open_store go disk snapshot_b))
    modify (λ d. record d {
      lines = d.lines ++ (size_line (codes "A") store_a ∷ (size_line (codes "B") store_b ∷ []));
    })
    pairs_a ← lift (iter go store_a)
    compare_values max_diffs store_b pairs_a
    pairs_b ← lift (iter go store_b)
    compare_keys max_diffs store_a pairs_b
