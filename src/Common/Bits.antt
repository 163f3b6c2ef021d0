-- ===== src/Common/Bits.antt =====
-- A mask that clears low bits, as arithmetic: the native `bit_and` has no laws at variables.
use Prim.Native.Nat.{
  ℕ, zero, suc, ◌+◌, ◌-◌, ◌*◌, ◌/◌, ◌≤◌, ◌<◌, ◌^◌, min, bit_and, digits, bit_and-bitwise,
}
use mathlib.Core.Path.{◌≡◌, refl, ◌∙◌}
use native.Mathlib.Omega.{arith}

-- `j` zeros below `k` ones.
abbrev mask : ℕ → ℕ → ℕ
mask zero zero = 0
mask zero (suc k) = mask zero k * 2 + 1
mask (suc j) k = mask j k * 2

-- 2 ^ (j + k)
abbrev capacity : ℕ → ℕ → ℕ
capacity zero zero = 1
capacity zero (suc k) = capacity zero k * 2
capacity (suc j) k = capacity j k * 2

-- A number with its `j` lowest digits set to zero.
abbrev cleared : ℕ → ℕ → ℕ
cleared zero a = a
cleared (suc j) a = cleared j (a / 2) * 2

cleared-zero : (j : ℕ) → cleared j 0 ≡ 0
cleared-zero zero = refl
cleared-zero (suc j) = omega (arith, cleared-zero j)

-- The digits that a mask leaves, for any number of rounds that covers `a`.
masked_digits :
    (n j k a : ℕ) → a ≤ n → a < capacity j k → digits (λ b. zero) min n a (mask j k) ≡ cleared j a
masked_digits zero zero k zero h fits = refl
masked_digits zero (suc j) k zero h fits = omega (arith, cleared-zero j)
masked_digits zero j k (suc a) h fits = absurd (omega arith)
masked_digits (suc n) j k zero h fits = omega (arith, cleared-zero j)
masked_digits (suc n) zero zero (suc a) h fits = absurd (omega arith)
masked_digits (suc n) zero (suc k) (suc a) h fits =
    let half : (mask zero k * 2 + 1) / 2 ≡ mask zero k = omega arith in
    rw half (omega (arith, masked_digits n zero k (suc a / 2) (omega arith) (omega arith)))
masked_digits (suc n) (suc j) k (suc a) h fits =
    let half : mask j k * 2 / 2 ≡ mask j k = omega arith in
    rw half (omega (arith, masked_digits n j k (suc a / 2) (omega arith) (omega arith)))

bit_and-mask : (j k a : ℕ) → a < capacity j k → bit_and a (mask j k) ≡ cleared j a
bit_and-mask j k a fits = bit_and-bitwise a (mask j k) ∙ masked_digits a j k a (omega arith) fits

-- `a & !4095` on a 64-bit word.
pub bit_and_page : (a : ℕ) → a < 2 ^ 64 → bit_and a (2 ^ 64 - 4096) ≡ a / 4096 * 4096
bit_and_page a h = bit_and-mask 12 52 a (omega arith) ∙ omega arith
