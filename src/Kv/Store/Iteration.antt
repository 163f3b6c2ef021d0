-- ===== src/Kv/Store/Iteration.antt =====
-- Iteration over a store that holds a table: each entry of the table, once, in the order of slots.
use lowlatency.Common.{
  ℕ, zero, suc, ◌+◌, ◌≤◌, ◌<◌, ◌≡◌, inl, inr, refl, sym, ap, ◌∙◌, arith, Bytes, List, [], ◌∷◌,
  length, Option, some, Elem, Distinct, All, All-imp, All-Elem, Elem-All, Elem-map, map, ok,
}
use native.Mathlib.Decide.{ℕ_discrete}
use lowlatency.Common.Choice.{Choice, IsChoice}
use lowlatency.Kv.Record.{Record}
use lowlatency.Kv.GoFunction.{GoFunction}
use lowlatency.Kv.Mphf
use lowlatency.Kv.Mphf.Slots.{slot_has_key}
use lowlatency.Kv.Store.{KvStore, get, get_record, iter_from, iter}
use lowlatency.Kv.Store.Loaded.{lookup, IsTable, IsLoaded}
use lowlatency.Kv.Store.Lookup.{
  Placed-lookup, record_in_slot, slot_inside, get_record_inside, get-lookup,
}

module _ (go : GoFunction) (s : KvStore go) (keys values : List Bytes) where
  -- The entries of the slots from `slot` on.
  pub record IsListed (left slot : ℕ) (pairs : List (Bytes × Bytes)) : Type 0 where
    pub as_many : length pairs ≡ left
    pub sound : All (λ (p : Bytes × Bytes). lookup p.0 keys values ≡ some p.1) pairs
    pub complete :
        (k v : Bytes) (t : ℕ)
        → Elem k keys
        → lookup k keys values ≡ some v
        → Mphf.slot_of go s.mphf k ≡ some t
        → slot ≤ t
        → t < slot + left
        → Elem (k, v) pairs
    pub behind :
        All
          (λ (p : Bytes × Bytes). (t : ℕ) × (Mphf.slot_of go s.mphf p.0 ≡ some t) × (slot ≤ t))
          pairs
    pub apart : Distinct pairs

module _ {ℓ} (E : Type ℓ) (go : GoFunction) (s : KvStore go) (keys values : List Bytes)
    (table : IsTable keys values) (loaded : IsLoaded go s keys values) where
  -- The entry in a slot: its key has the slot, and its value is that of the table.
  entry :
      (slot : ℕ)
      → slot < length keys
      → (k : Bytes) × (v : Bytes) × (Mphf.slot_of go s.mphf k ≡ some slot)
        × (lookup k keys values ≡ some v)
        × Elem k keys
        × (get_record go {E = E} s slot ≡ ok (record { key = k; value = v }))
  entry slot low =
      let (k, there, at) =
        slot_has_key (Mphf.slot_of go s.mphf) (length keys) keys slot loaded.perfect
          table.keys_distinct refl low in
      let (v, held, found) =
        Placed-lookup (Mphf.slot_of go s.mphf) s.data_offset s.mmap k keys values loaded.placed
          table.as_many there in
      (
        k,
        v,
        at,
        found,
        there,
        get_record_inside go s slot (slot_inside go s keys values slot loaded low)
              loaded.addressable
            ∙ ap (λ (r : Record). ok r) (record_in_slot go s keys values slot k v at held),
      )

  pub iter_from-IsListed :
      (left slot : ℕ)
      → slot + left ≤ length keys
      → (pairs : List (Bytes × Bytes)) × (iter_from go {E = E} s left slot ≡ ok pairs)
        × IsListed go s keys values left slot pairs
  unfolding iter_from
  iter_from-IsListed zero slot room = (
    [],
    refl,
    record {
      as_many = refl;
      sound = tt;
      complete = λ k v t e f at lo hi. absurd (omega arith);
      behind = tt;
      apart = tt;
    },
  )
  iter_from-IsListed (suc left) slot room =
      let (k, v, at, found, there, read) = entry slot (omega arith) in
      let (rest, ran, listed) = iter_from-IsListed left (slot + 1) (omega arith) in
      (
        (k, v) ∷ rest,
        rw (read, ran),
        record {
          as_many = ap suc listed.as_many;
          sound = (found, listed.sound);
          complete = λ j w t e f at_j lo hi. elim (ℕ_discrete t slot) [
            | yes same ↦
                let is_key : k ≡ j =
                  loaded.perfect.injective k j there e (at ∙ rw (sym same) (sym at_j)) in
                let is_value : v ≡ w =
                  cc (found, f, ap (λ (x : Bytes). lookup x keys values) is_key) in
                inl (λ i. (is_key i, is_value i))
            | no other ↦ inr (listed.complete j w t e f at_j (omega arith) (omega arith))
          ];
          behind = (
            (slot, at, omega arith),
            All-imp (λ p (t, at_p, after). (t, at_p, omega (arith, after))) rest listed.behind,
          );
          apart = (
            λ e.
                let (t, at_k, after) = All-Elem _ (k, v) rest listed.behind e in
                let same : slot ≡ t = cc (at, at_k) in absurd (omega (arith, after, same)),
            listed.apart,
          );
        },
      )

  pub counted_run :
      (pairs : List (Bytes × Bytes))
      → iter_from go {E = E} s (length keys) 0 ≡ ok pairs
      → iter go {E = E} s ≡ ok pairs
  unfolding iter
  counted_run pairs ran = ap (λ (n : ℕ). iter_from go {E = E} s n 0) loaded.counted ∙ ran

  -- Iteration over a loaded store does not panic. It gives as many entries as the table has keys,
  -- and the value in each is the one that the table has for the key.
  pub iter_sound :
      (pairs : List (Bytes × Bytes)) × (iter go {E = E} s ≡ ok pairs)
      × (length pairs ≡ length keys)
      × All (λ (p : Bytes × Bytes). lookup p.0 keys values ≡ some p.1) pairs
  iter_sound =
      let (pairs, ran, listed) = iter_from-IsListed (length keys) 0 (omega arith) in
      (pairs, counted_run pairs ran, listed.as_many, listed.sound)

  -- Every key of the table is among the entries of the iteration, with its value.
  pub iter_complete :
      (k v : Bytes)
      → Elem k keys
      → lookup k keys values ≡ some v
      → (pairs : List (Bytes × Bytes)) × (iter go {E = E} s ≡ ok pairs) × Elem (k, v) pairs
  iter_complete k v there found =
      let (pairs, ran, listed) = iter_from-IsListed (length keys) 0 (omega arith) in
      let (t, at, low) = loaded.perfect.slot k there in
      (
        pairs,
        counted_run pairs ran,
        listed.complete k v t there found at (omega arith) (omega arith),
      )

  found_pair :
      (p : Bytes × Bytes) → lookup p.0 keys values ≡ some p.1 → get go {E = E} s p.0 ≡ ok (some p.1)
  found_pair p at =
      get-lookup go s keys values p.0 table loaded ∙ ap (λ (r : Option Bytes). ok r) at

  -- A key that the iteration gives is found.
  pub iter_found :
      (pairs : List (Bytes × Bytes))
      → iter go {E = E} s ≡ ok pairs
      → All (λ (p : Bytes × Bytes). get go {E = E} s p.0 ≡ ok (some p.1)) pairs
  iter_found pairs ran =
      let (pairs', ran', counted, sound) = iter_sound in
      let same : pairs' ≡ pairs = cc in rw (← same) (All-imp found_pair pairs' sound)

  -- All keys of a sample of the iteration are found.
  pub sample_found :
      (choose : Choice) (pairs : List (Bytes × Bytes)) (n : ℕ)
      → IsChoice choose
      → iter go {E = E} s ≡ ok pairs
      → All
          (λ (k : Bytes). (v : Bytes) × (get go {E = E} s k ≡ ok (some v)))
          (choose (map (λ (p : Bytes × Bytes). p.0) pairs) n)
  sample_found choose pairs n fair ran = Elem-All _ _ (λ k e.
      let (p, there, is_key) =
        Elem-map (λ (p : Bytes × Bytes). p.0) k pairs (fair.chosen _ n k e) in
      (
        p.1,
        ap (λ (x : Bytes). get go {E = E} s x) (sym is_key)
            ∙ All-Elem _ p pairs (iter_found pairs ran) there,
      ))
