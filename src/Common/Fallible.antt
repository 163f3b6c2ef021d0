-- ===== src/Common/Fallible.antt =====
-- Fallible code: a value, an error that the code returns, or a panic.
use mathlib.Core.Bool.{Bool, true, false}
use mathlib.Core.Option.{Option, none, some}
use mathlib.Core.Path.{◌≡◌, refl}
use mathlib.Core.Logic.{◌⊎◌, inl, inr}

-- `panic` is a failed bounds check, `unwrap`, `expect` or `assert!`; the release profile aborts.
pub data Outcome {ℓ κ} (E : Type ℓ) (A : Type κ) : Type (ℓ ⊔ κ) where
  ok : A → Outcome E A
  err : E → Outcome E A
  panic : Outcome E A

module _ {ℓ} {E : Type ℓ} where
  infixl 5 ◌>>=◌ ◌>>◌
  abbrev pub ◌>>=◌ {κ μ} : {A : Type κ} {B : Type μ} → Outcome E A → (A → Outcome E B) → Outcome E B
  ok a >>= f = f a
  err e >>= f = err e
  panic >>= f = panic

  abbrev pub ◌>>◌ {κ} : {B : Type κ} → Outcome E (Unit {0}) → Outcome E B → Outcome E B
  m >> k = m >>= λ _. k

  -- `if !b { return Err(e) }`
  abbrev pub guard : Bool → E → Outcome E (Unit {0})
  guard true e = ok tt
  guard false e = err e

  -- `assert!(b)`
  abbrev pub assert : Bool → Outcome E (Unit {0})
  assert true = ok tt
  assert false = panic

  -- `o.unwrap()`, `o.expect(..)`
  abbrev pub unwrap {κ} : {A : Type κ} → Option A → Outcome E A
  unwrap none = panic
  unwrap (some a) = ok a

-- `result.map_err(f)`, and `context` of anyhow.
abbrev pub map_err {ℓ κ μ} :
    {E : Type ℓ} {F : Type κ} {A : Type μ} → (E → F) → Outcome E A → Outcome F A
map_err f (ok a) = ok a
map_err f (err e) = err (f e)
map_err f panic = panic

-- To split on a computed outcome and keep the equation.
pub Outcome-cases {ℓ κ} :
    {E : Type ℓ} {A : Type κ} (o : Outcome E A)
    → ((a : A) × (o ≡ ok a)) ⊎ (((e : E) × (o ≡ err e)) ⊎ (o ≡ panic))
Outcome-cases (ok a) = inl (a, refl)
Outcome-cases (err e) = inr (inl (e, refl))
Outcome-cases panic = inr (inr refl)

-- What succeeds has succeeded in its first part.
pub bind_parts {ℓ κ μ} :
    {E : Type ℓ} {A : Type κ} {B : Type μ} (m : Outcome E A) (f : A → Outcome E B) (b : B)
    → (m >>= f) ≡ ok b
    → (a : A) × (m ≡ ok a) × (f a ≡ ok b)
bind_parts m f b h = elim (Outcome-cases m) [
  | inl (a, first) ↦ (a, first, rw first at h)
  | inr (inl (e, first)) ↦ absurd (cc (rw first at h))
  | inr (inr first) ↦ absurd (cc (rw first at h))
]

pub guard_holds {ℓ κ} :
    {E : Type ℓ} {B : Type κ} (test : Bool) (e : E) (k : Outcome E B) (b : B)
    → (guard test e >> k) ≡ ok b
    → (test ≡ true) × (k ≡ ok b)
guard_holds true e k b h = (refl, h)
guard_holds false e k b h = absurd cc
