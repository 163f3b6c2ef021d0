-- ===== src/Common/Action.antt =====
-- Code with a state that may fail: the state is there whatever the outcome.
use lowlatency.Common.{Outcome, ok, err, panic}

abbrev pub Action {ℓ} : Type ℓ → Type ℓ → Type ℓ → Type ℓ
Action S E A = S → Outcome E A × S

module _ {ℓ} {S E : Type ℓ} where
  -- What follows runs in the state that was left, and only after a success.
  abbrev pub continue : {A B : Type ℓ} → Outcome E A × S → (A → Action S E B) → Outcome E B × S
  continue (ok a, s) f = f a s
  continue (err e, s) f = (err e, s)
  continue (panic, s) f = (panic, s)

  infixl 5 ◌>>=◌ ◌>>◌
  abbrev pub ◌>>=◌ : {A B : Type ℓ} → Action S E A → (A → Action S E B) → Action S E B
  ◌>>=◌ m f s = continue (m s) f

  abbrev pub ◌>>◌ : {A B : Type ℓ} → Action S E A → Action S E B → Action S E B
  m >> k = m >>= λ _. k

  abbrev pub lift : {A : Type ℓ} → Outcome E A → Action S E A
  lift r s = (r, s)

  abbrev pub modify : (S → S) → Action S E (Unit {ℓ})
  modify f s = (ok tt, f s)
