-- ===== src/Validator/Diff/Reference.antt =====
-- What a comparison of two tables is to count, as sums over the entries of the tables.
use mathlib.Core.List.Perm
use mathlib.Mathlib.Data.Multiset.Defs.{coe-eq-coe}
use native.Mathlib.Nat.{ℕ_set}
use lowlatency.Common.{
  Text, take, ◌++◌, ℕ, ◌+◌, ◌≤◌, ◌≡◌, arith, Bytes, List, [], ◌∷◌, length, sum, Option, some, none,
  bytes_eq, if◌then◌else◌,
}
use lowlatency.Common.Format.{codes, hex_encode}
use lowlatency.Kv.Store.Loaded.{lookup}
use lowlatency.Kv.Store.Contents.{contents}

-- A sum over entries does not depend on their order.
pub sum-contents :
    (weight : Bytes × Bytes → ℕ) (xs ys : List (Bytes × Bytes))
    → contents xs ≡ contents ys
    → sum weight xs ≡ sum weight ys
sum-contents weight xs ys same =
    Perm.foldr-eq ℕ_set (λ p n. weight p + n) (λ p q n. omega arith) (coe-eq-coe.0 same) 0

pub sum_bound :
    (weight : Bytes × Bytes → ℕ) (pairs : List (Bytes × Bytes))
    → ((p : Bytes × Bytes) → weight p ≤ 1)
    → sum weight pairs ≤ length pairs
sum_bound weight [] small = omega arith
sum_bound weight (p ∷ pairs) small = omega (arith, small p, sum_bound weight pairs small)

-- Whether a look-up fails, and whether it gives another value.
unfoldable pub missing : Option Bytes → ℕ
missing none = 1
missing (some value) = 0

unfoldable pub changed : Bytes → Option Bytes → ℕ
changed value none = 0
changed value (some found) = if bytes_eq value found then 0 else 1

pub missing_bound : (found : Option Bytes) → missing found ≤ 1
unfolding missing
missing_bound none = omega arith
missing_bound (some value) = omega arith

pub changed_bound : (value : Bytes) (found : Option Bytes) → changed value found ≤ 1
unfolding changed
changed_bound value none = omega arith
changed_bound value (some found) = ground arith

abbrev pub missing_in : List Bytes → List Bytes → Bytes × Bytes → ℕ
missing_in keys values p = missing (lookup p.0 keys values)

abbrev pub changed_in : List Bytes → List Bytes → Bytes × Bytes → ℕ
changed_in keys values p = changed p.1 (lookup p.0 keys values)

-- The line of a difference: its kind, and the first 16 bytes of the key in hexadecimal.
unfoldable pub value_line : Bytes × Bytes → Option Bytes → List Text
value_line p none = (codes "IN_A_ONLY: key=" ++ hex_encode (take 16 p.0)) ∷ []
value_line p (some found) =
    if bytes_eq p.1 found then [] else (codes "VALUE_DIFF: key=" ++ hex_encode (take 16 p.0)) ∷ []

unfoldable pub key_line : Bytes × Bytes → Option Bytes → List Text
key_line p none = (codes "IN_B_ONLY: key=" ++ hex_encode (take 16 p.0)) ∷ []
key_line p (some found) = []

-- The lines for all entries, one entry after the other.
unfoldable pub lines_for : (Bytes × Bytes → List Text) → List (Bytes × Bytes) → List Text
lines_for line [] = []
lines_for line (p ∷ pairs) = line p ++ lines_for line pairs
