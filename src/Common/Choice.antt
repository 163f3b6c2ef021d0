-- ===== src/Common/Choice.antt =====
-- A choice of some elements of a list, as `choose_multiple` of the crate `rand` makes it.
use lowlatency.Common.{ℕ, min, ◌≡◌, Bytes, List, length, Elem}

-- A generator's way to choose `n` elements.
abbrev pub Choice : Type 0
Choice = List Bytes → ℕ → List Bytes

-- What the crate documents: elements of the list, `n` of them or as many as there are.
pub record IsChoice (choose : Choice) : Type 0 where
  pub chosen : (xs : List Bytes) (n : ℕ) (x : Bytes) → Elem x (choose xs n) → Elem x xs
  pub as_many : (xs : List Bytes) (n : ℕ) → length (choose xs n) ≡ min n (length xs)
