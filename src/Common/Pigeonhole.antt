-- ===== src/Common/Pigeonhole.antt =====
-- `n` different numbers below `n` are all of them.
use native.Mathlib.Decide.{ℕ_discrete}
use lowlatency.Common.{
  ℕ, zero, suc, ◌+◌, ◌≤◌, ◌<◌, ◌≡◌, refl, arith, List, [], ◌∷◌, ◌⊎◌, inl, inr, Bool-cases, ◌==◌,
  ==_iff, if◌then◌else◌, length, All, Elem, Distinct,
}

-- The list with every `n` taken out.
without : ℕ → List ℕ → List ℕ
without n [] = []
without n (x ∷ xs) = let rest = without n xs in if x == n then rest else x ∷ rest

Elem-without : (n a : ℕ) (xs : List ℕ) → Elem a (without n xs) → Elem a xs
unfolding without
Elem-without n a [] e = e
Elem-without n a (x ∷ xs) e = ground (arith, Elem-without n a xs)

without-Distinct : (n : ℕ) (xs : List ℕ) → Distinct xs → Distinct (without n xs)
unfolding without
without-Distinct n [] d = tt
without-Distinct n (x ∷ xs) d = ground (arith, without-Distinct n xs d.1, Elem-without n x xs)

without-lt : (n : ℕ) (xs : List ℕ) → All (λ x. x < suc n) xs → All (λ x. x < n) (without n xs)
unfolding without
without-lt n [] h = tt
without-lt n (x ∷ xs) h = ground (arith, without-lt n xs h.1)

length-without_ne : (n : ℕ) (xs : List ℕ) → (Elem n xs → ⊥) → length (without n xs) ≡ length xs
unfolding without
length-without_ne n [] absent = refl
length-without_ne n (x ∷ xs) absent =
    ground (arith, length-without_ne n xs (λ e. absent (inr e)), absent)

length-without : (n : ℕ) (xs : List ℕ) → Distinct xs → length xs ≤ length (without n xs) + 1
unfolding without
length-without n [] d = omega arith
length-without n (x ∷ xs) d = elim (Bool-cases (x == n)) [
  | inl e ↦
      let same : x ≡ n = (==_iff x n).0 e in
      rw e (omega (arith, length-without_ne n xs (λ q. d.0 (rw same q))))
  | inr e ↦ rw e (omega (arith, length-without n xs d.1))
]

-- Different numbers below `n` are at most `n`.
length-le_Distinct : (n : ℕ) (xs : List ℕ) → All (λ x. x < n) xs → Distinct xs → length xs ≤ n
length-le_Distinct zero [] h d = omega arith
length-le_Distinct zero (x ∷ xs) h d = absurd (omega (arith, h.0))
length-le_Distinct (suc n) xs h d = omega (
  arith,
  length-without n xs d,
  length-le_Distinct n (without n xs) (without-lt n xs h) (without-Distinct n xs d),
)

Elem-dec : (a : ℕ) (xs : List ℕ) → Elem a xs ⊎ (Elem a xs → ⊥)
Elem-dec a [] = inr (λ e. e)
Elem-dec a (x ∷ xs) = decide (ℕ_discrete x a) (Elem-dec a xs)
  where
    decide : Dec (x ≡ a) → Elem a xs ⊎ (Elem a xs → ⊥) → Elem a (x ∷ xs) ⊎ (Elem a (x ∷ xs) → ⊥)
    decide (yes e) rest = inl (inl e)
    decide (no ne) (inl e) = inl (inr e)
    decide (no ne) (inr absent) = inr (elim [ inl e ↦ ne e | inr e ↦ absent e ])

pub pigeonhole :
    (n s : ℕ) (xs : List ℕ) → All (λ x. x < n) xs → Distinct xs → length xs ≡ n → s < n → Elem s xs
pigeonhole n s xs h d full low = pick (Elem-dec s xs)
  where
    pick : Elem s xs ⊎ (Elem s xs → ⊥) → Elem s xs
    pick (inl e) = e
    pick (inr absent) = absurd (omega (arith, length-le_Distinct n (s ∷ xs) (low, h) (absent, d)))
