-- ===== src/Common/Slices.antt =====
-- Reading and overwriting a range of a byte buffer.
use Prim.Native.Nat.{ℕ, zero, suc, ◌+◌, ◌-◌, ◌≤◌, ◌<◌}
use mathlib.Core.Path.{◌≡◌, refl, sym, ap, ◌∙◌}
use mathlib.Core.Logic.{◌⊎◌, inl, inr}
use mathlib.Core.Bool.{◌&&◌}
use mathlib.Core.List.{[], ◌∷◌, ◌++◌}
use native.Mathlib.Omega.{arith}
use lowlatency.Common.Tests.{leb, ◌==◌, if◌then◌else◌, le→leb, eq→==}
use lowlatency.Common.Lists.{Bytes, length, take, drop, length-take, length-drop}
use lowlatency.Common.Fallible.{Outcome, ok, panic}

-- The `n` bytes from offset `o` on, fewer where the buffer ends.
unfoldable pub slice : ℕ → ℕ → Bytes → Bytes
slice o n xs = take n (drop o xs)

-- `src` over the first bytes of the buffer.
unfoldable pub overlay : Bytes → Bytes → Bytes
overlay [] xs = xs
overlay (s ∷ src) [] = []
overlay (s ∷ src) (x ∷ xs) = s ∷ overlay src xs

-- `src` over the bytes from offset `o` on.
unfoldable pub splice : ℕ → Bytes → Bytes → Bytes
unfolding overlay
splice zero src xs = overlay src xs
splice (suc o) src [] = []
splice (suc o) src (x ∷ xs) = x ∷ splice o src xs

-- `&bytes[a..b]`
abbrev pub index_range {ℓ} : {E : Type ℓ} → ℕ → ℕ → Bytes → Outcome E Bytes
index_range a b bytes =
    if leb a b && leb b (length bytes) then ok (slice a (b - a) bytes) else panic

-- `bytes[a..b].copy_from_slice(src)`
abbrev pub copy_from_slice {ℓ} : {E : Type ℓ} → ℕ → ℕ → Bytes → Bytes → Outcome E Bytes
copy_from_slice a b src bytes =
    if leb a b && (leb b (length bytes) && length src == (b - a))
    then ok (splice a src bytes)
    else panic

pub index_range_lem {ℓ} :
    {E : Type ℓ} (a b : ℕ) (bytes : Bytes)
    → a ≤ b
    → b ≤ length bytes
    → index_range {E = E} a b bytes ≡ ok (slice a (b - a) bytes)
index_range_lem a b bytes h k = rw (le→leb a b h, le→leb b _ k)

pub index_range_panics {ℓ} :
    {E : Type ℓ} (a b : ℕ) (bytes : Bytes)
    → (b < a) ⊎ (length bytes < b)
    → index_range {E = E} a b bytes ≡ panic
index_range_panics a b bytes (inl h) = ground arith
index_range_panics a b bytes (inr h) = ground arith

pub copy_from_slice_lem {ℓ} :
    {E : Type ℓ} (a b : ℕ) (src bytes : Bytes)
    → a ≤ b
    → b ≤ length bytes
    → length src ≡ b - a
    → copy_from_slice {E = E} a b src bytes ≡ ok (splice a src bytes)
copy_from_slice_lem a b src bytes h k e = rw (le→leb a b h, le→leb b _ k, eq→== _ _ e)

length-overlay : (src xs : Bytes) → length (overlay src xs) ≡ length xs
unfolding overlay
length-overlay [] xs = refl
length-overlay (s ∷ src) [] = refl
length-overlay (s ∷ src) (x ∷ xs) = ap suc (length-overlay src xs)

pub length-splice : (o : ℕ) (src xs : Bytes) → length (splice o src xs) ≡ length xs
unfolding splice
length-splice zero src xs = length-overlay src xs
length-splice (suc o) src [] = refl
length-splice (suc o) src (x ∷ xs) = ap suc (length-splice o src xs)

pub length-slice : (o n : ℕ) (xs : Bytes) → o + n ≤ length xs → length (slice o n xs) ≡ n
unfolding slice
length-slice o n xs h = omega (arith, length-take n (drop o xs), length-drop o xs)

take-overlay : (src xs : Bytes) → length src ≤ length xs → take (length src) (overlay src xs) ≡ src
unfolding overlay
take-overlay [] xs h = refl
take-overlay (s ∷ src) [] h = absurd (omega arith)
take-overlay (s ∷ src) (x ∷ xs) h = ap (λ (t : Bytes). s ∷ t) (take-overlay src xs (omega arith))

-- What was written is read back.
pub slice-splice_self :
    (o : ℕ) (src xs : Bytes)
    → o + length src ≤ length xs
    → slice o (length src) (splice o src xs) ≡ src
unfolding slice splice
slice-splice_self zero src xs h = take-overlay src xs (omega arith)
slice-splice_self (suc o) src [] h = absurd (omega arith)
slice-splice_self (suc o) src (x ∷ xs) h = slice-splice_self o src xs (omega arith)

drop-overlay : (p : ℕ) (src xs : Bytes) → length src ≤ p → drop p (overlay src xs) ≡ drop p xs
unfolding overlay
drop-overlay p [] xs h = refl
drop-overlay p (s ∷ src) [] h = refl
drop-overlay zero (s ∷ src) (x ∷ xs) h = absurd (omega arith)
drop-overlay (suc p) (s ∷ src) (x ∷ xs) h = drop-overlay p src xs (omega arith)

-- A read behind the written range.
slice-splice_after :
    (p n o : ℕ) (src xs : Bytes) → o + length src ≤ p → slice p n (splice o src xs) ≡ slice p n xs
unfolding slice splice
slice-splice_after p n zero src xs h = ap (take n) (drop-overlay p src xs (omega arith))
slice-splice_after p n (suc o) src [] h = refl
slice-splice_after zero n (suc o) src (x ∷ xs) h = absurd (omega arith)
slice-splice_after (suc p) n (suc o) src (x ∷ xs) h = slice-splice_after p n o src xs (omega arith)

take-splice : (n o : ℕ) (src xs : Bytes) → n ≤ o → take n (splice o src xs) ≡ take n xs
unfolding splice
take-splice zero o src xs h = refl
take-splice (suc n) zero src xs h = absurd (omega arith)
take-splice (suc n) (suc o) src [] h = refl
take-splice (suc n) (suc o) src (x ∷ xs) h =
    ap (λ (t : Bytes). x ∷ t) (take-splice n o src xs (omega arith))

-- A read before the written range.
slice-splice_before :
    (p n o : ℕ) (src xs : Bytes) → p + n ≤ o → slice p n (splice o src xs) ≡ slice p n xs
unfolding slice splice
slice-splice_before zero n o src xs h = take-splice n o src xs (omega arith)
slice-splice_before (suc p) n zero src xs h = absurd (omega arith)
slice-splice_before (suc p) n (suc o) src [] h = refl
slice-splice_before (suc p) n (suc o) src (x ∷ xs) h =
    slice-splice_before p n o src xs (omega arith)

-- A write leaves what is read elsewhere.
pub slice-splice_ne :
    (p n o : ℕ) (src xs : Bytes)
    → (p + n ≤ o) ⊎ (o + length src ≤ p)
    → slice p n (splice o src xs) ≡ slice p n xs
slice-splice_ne p n o src xs (inl h) = slice-splice_before p n o src xs h
slice-splice_ne p n o src xs (inr h) = slice-splice_after p n o src xs h

take-drop-take :
    (o n m : ℕ) (xs : Bytes) → o + n ≤ m → take n (drop o (take m xs)) ≡ take n (drop o xs)
take-drop-take zero zero m xs h = refl
take-drop-take zero (suc n) zero xs h = absurd (omega arith)
take-drop-take zero (suc n) (suc m) [] h = refl
take-drop-take zero (suc n) (suc m) (x ∷ xs) h =
    ap (λ (t : Bytes). x ∷ t) (take-drop-take zero n m xs (omega arith))
take-drop-take (suc o) n zero xs h = absurd (omega arith)
take-drop-take (suc o) n (suc m) [] h = refl
take-drop-take (suc o) n (suc m) (x ∷ xs) h = take-drop-take o n m xs (omega arith)

drop-nil : (n : ℕ) → drop {A = ℕ} n [] ≡ []
drop-nil zero = refl
drop-nil (suc n) = refl

drop-drop : (p o q : ℕ) (xs : Bytes) → q ≡ o + p → drop p (drop o xs) ≡ drop q xs
drop-drop p zero q xs e = ap (λ (t : ℕ). drop t xs) (omega arith)
drop-drop p (suc o) zero xs e = absurd (omega arith)
drop-drop p (suc o) (suc q) [] e = drop-nil p
drop-drop p (suc o) (suc q) (x ∷ xs) e = drop-drop p o q xs (omega arith)

-- A range inside a range, at the offset `q` of the whole.
pub slice-slice :
    (p n o m q : ℕ) (xs : Bytes) → p + n ≤ m → q ≡ o + p → slice p n (slice o m xs) ≡ slice q n xs
unfolding slice
slice-slice p n o m q xs inside e =
    take-drop-take p n m (drop o xs) inside ∙ ap (take n) (drop-drop p o q xs e)

take-all : (n : ℕ) (xs : Bytes) → length xs ≡ n → take n xs ≡ xs
take-all zero [] h = refl
take-all zero (x ∷ xs) h = absurd (omega arith)
take-all (suc n) [] h = absurd (omega arith)
take-all (suc n) (x ∷ xs) h = ap (λ (t : Bytes). x ∷ t) (take-all n xs (omega arith))

pub slice_all : (n : ℕ) (xs : Bytes) → length xs ≡ n → slice 0 n xs ≡ xs
unfolding slice
slice_all n xs h = take-all n xs h

take-nil : (n : ℕ) → take {A = ℕ} n [] ≡ []
take-nil zero = refl
take-nil (suc n) = refl

unary : (a b : ℕ) → suc a + b ≡ suc (a + b)
unary a b = omega arith

take-split : (a b : ℕ) (xs : Bytes) → take (a + b) xs ≡ take a xs ++ take b (drop a xs)
take-split zero b xs = ap (λ (n : ℕ). take n xs) (omega arith)
take-split (suc a) b [] = take-nil (suc a + b) ∙ sym (take-nil b)
take-split (suc a) b (x ∷ xs) =
    ap (λ (n : ℕ). take n (x ∷ xs)) (unary a b) ∙ ap (λ (t : Bytes). x ∷ t) (take-split a b xs)

-- A range is cut in two.
pub slice-append :
    (o a b : ℕ) (xs : Bytes) → slice o (a + b) xs ≡ slice o a xs ++ slice (o + a) b xs
unfolding slice
slice-append o a b xs =
    take-split a b (drop o xs)
    ∙ ap (λ (t : Bytes). take a (drop o xs) ++ take b t) (drop-drop a o (o + a) xs refl)
