-- ===== src/Kv/Mphf/Slots.antt =====
-- The slots that the wrapper gives out.
use lowlatency.Common.{
  ℕ, suc, ◌<◌, ◌≡◌, refl, sym, ap, ◌∙◌, arith, List, [], ◌∷◌, inl, inr, Bytes, Option, some, none,
  ok, length, All, Elem, Distinct,
}
use lowlatency.Common.Pigeonhole.{pigeonhole}
use lowlatency.Kv.GoFunction.{GoFunction, IsPerfect, Answers, given}
use lowlatency.Kv.Mphf.{Mphf, in_bounds, get, slot_of}

in_bounds-lt : (n s : ℕ) (o : Option ℕ) → in_bounds n o ≡ some s → (o ≡ some s) × (s < n)
unfolding in_bounds
in_bounds-lt n s none h = cc
in_bounds-lt n s (some t) h = (ground arith, ground arith)

in_bounds-some : (n s : ℕ) → s < n → in_bounds n (some s) ≡ some s
unfolding in_bounds
in_bounds-some n s h = ground arith

-- A slot that the wrapper gives is below the key count, for known and unknown keys alike.
pub slot_of-lt :
    (go : GoFunction) (m : Mphf go) (key : Bytes) (s : ℕ)
    → slot_of go m key ≡ some s
    → s < m.key_count
unfolding slot_of
slot_of-lt go m key s h = (in_bounds-lt m.key_count s (given (go.get m.function key)) h).1

given-some : (o : Option (Option ℕ)) (s : ℕ) → given o ≡ some s → o ≡ some (some s)
unfolding given
given-some none s h = absurd cc
given-some (some found) s h = ap (λ (t : Option ℕ). some t) h

module _ {ℓ} {E : Type ℓ} (go : GoFunction) (m : Mphf go) (key : Bytes) where
  -- Where a slot is given, `get` has not panicked.
  pub get-some : (s : ℕ) → slot_of go m key ≡ some s → get go {E = E} m key ≡ ok (some s)
  unfolding get slot_of
  get-some s h =
      let (at, low) = in_bounds-lt m.key_count s (given (go.get m.function key)) h in
      let found : go.get m.function key ≡ some (some s) = given-some (go.get m.function key) s at in
      rw found (ap (λ (o : Option ℕ). ok o) (in_bounds-some m.key_count s low))

  pub get-total : Answers go m.function → get go {E = E} m key ≡ ok (slot_of go m key)
  unfolding get slot_of given
  get-total total = let (found, at) = total key in rw at refl

-- The bounds check lets every slot of a perfect function pass.
pub slot_of-IsPerfect :
    (go : GoFunction) (m : Mphf go) (keys : List Bytes)
    → IsPerfect (λ k. given (go.get m.function k)) m.key_count keys
    → IsPerfect (slot_of go m) m.key_count keys
unfolding slot_of
slot_of-IsPerfect go m keys p = record {
  slot = λ k e.
      let (s, at, low) = p.slot k e in
      (s, ap (in_bounds m.key_count) at ∙ in_bounds-some m.key_count s low, low);
  injective = λ j k ej ek same.
      let (s, at_j, low_j) = p.slot j ej in
      let (t, at_k, low_k) = p.slot k ek in
      p.injective j k ej ek (
        cc (
          at_j,
          at_k,
          same,
          ap (in_bounds m.key_count) at_j,
          ap (in_bounds m.key_count) at_k,
          in_bounds-some m.key_count s low_j,
          in_bounds-some m.key_count t low_k,
        ));
}

pub IsPerfect-tail :
    (slot_of : Bytes → Option ℕ) (n : ℕ) (key : Bytes) (keys : List Bytes)
    → IsPerfect slot_of n (key ∷ keys)
    → IsPerfect slot_of n keys
IsPerfect-tail slot_of n key keys p = record {
  slot = λ k e. p.slot k (inr e);
  injective = λ j k ej ek same. p.injective j k (inr ej) (inr ek) same;
}

module _ (slot_of : Bytes → Option ℕ) (n : ℕ) where
  -- The slots of the keys, in their order.
  slots : (keys : List Bytes) → IsPerfect slot_of n keys → List ℕ
  slots [] p = []
  slots (k ∷ keys) p = (p.slot k (inl refl)).0 ∷ slots keys (IsPerfect-tail slot_of n k keys p)

  length-slots :
      (keys : List Bytes) (p : IsPerfect slot_of n keys) → length (slots keys p) ≡ length keys
  unfolding slots
  length-slots [] p = refl
  length-slots (k ∷ keys) p = ap suc (length-slots keys (IsPerfect-tail slot_of n k keys p))

  slots-lt : (keys : List Bytes) (p : IsPerfect slot_of n keys) → All (λ s. s < n) (slots keys p)
  unfolding slots
  slots-lt [] p = tt
  slots-lt (k ∷ keys) p =
      ((p.slot k (inl refl)).2, slots-lt keys (IsPerfect-tail slot_of n k keys p))

  key_of_slot :
      (keys : List Bytes) (p : IsPerfect slot_of n keys) (s : ℕ)
      → Elem s (slots keys p)
      → (k : Bytes) × Elem k keys × (slot_of k ≡ some s)
  unfolding slots
  key_of_slot [] p s e = absurd e
  key_of_slot (k ∷ keys) p s (inl e) =
      (k, inl refl, (p.slot k (inl refl)).1 ∙ ap (λ (t : ℕ). some t) e)
  key_of_slot (k ∷ keys) p s (inr e) =
      let (j, there, at) = key_of_slot keys (IsPerfect-tail slot_of n k keys p) s e in
      (j, inr there, at)

  slots-Distinct :
      (keys : List Bytes) (p : IsPerfect slot_of n keys) → Distinct keys → Distinct (slots keys p)
  unfolding slots
  slots-Distinct [] p d = tt
  slots-Distinct (k ∷ keys) p d =
      let rest = IsPerfect-tail slot_of n k keys p in
      (
        λ e.
            let (j, there, at) = key_of_slot keys rest _ e in
            let same : j ≡ k =
              p.injective j k (inr there) (inl refl) (at ∙ sym (p.slot k (inl refl)).1) in
            d.0 (rw same at there),
        slots-Distinct keys rest d.1,
      )

  -- A perfect assignment to as many keys as there are slots leaves no slot free.
  pub slot_has_key :
      (keys : List Bytes) (s : ℕ)
      → IsPerfect slot_of n keys
      → Distinct keys
      → length keys ≡ n
      → s < n
      → (k : Bytes) × Elem k keys × (slot_of k ≡ some s)
  slot_has_key keys s p d full low = key_of_slot keys p s (
      pigeonhole n s (slots keys p) (slots-lt keys p) (slots-Distinct keys p d)
        (length-slots keys p ∙ full) low)
