-- ===== src/Kv/Store/Contents.antt =====
-- The contents of a store, with the order of its records forgotten: a multiset of entries.
use mathlib.Core.List
use mathlib.Core.List.{zip, Memᴰ, Nodup, Nodup-nil, Nodup-cons, perm_ext_iff_of_Nodup}
use mathlib.Core.List.Memᴰ
use mathlib.Core.List.Perm
use mathlib.Core.Option
use mathlib.Core.HLevel.{⊥_prop}
use mathlib.Core.Logic.{∥∥₁_elim, ∥∥₁_map}
use mathlib.Mathlib.Data.Multiset.Defs.{Multiset, of_list, coe-eq-coe}
use native.Mathlib.Nat.{ℕ_set}
use lowlatency.Common.{
  ◌≡◌, inl, inr, sym, ap, ◌∙◌, arith, Bytes, List, [], ◌∷◌, length, Option, some, Option-cases,
  bytes_eq, bytes_eq_refl, bytes_eq→eq, ne→bytes_eq, Bool-cases, Elem, Distinct, All-Elem, ok,
}
use lowlatency.Kv.GoFunction.{GoFunction}
use lowlatency.Kv.Store.{KvStore, iter}
use lowlatency.Kv.Store.Loaded.{lookup, IsTable, IsLoaded}
use lowlatency.Kv.Store.Iteration.{iter_from-IsListed, counted_run}

abbrev pub Contents : Type 0
Contents = Multiset (Bytes × Bytes)

abbrev pub contents : List (Bytes × Bytes) → Contents
contents pairs = of_list pairs

module _ {A : Type 0} where
  Elem-Mem : (x : A) (xs : List A) → Elem x xs → Memᴰ x xs
  Elem-Mem x [] e = absurd e
  Elem-Mem x (y ∷ ys) (inl e) = Memᴰ.head (sym e)
  Elem-Mem x (y ∷ ys) (inr e) = Memᴰ.tail (Elem-Mem x ys e)

  Mem-Elem : {x : A} {xs : List A} → Memᴰ x xs → Elem x xs
  Mem-Elem (Memᴰ.head e) = inl (sym e)
  Mem-Elem (Memᴰ.tail d) = inr (Mem-Elem d)

  Distinct-Nodup : (xs : List A) → Distinct xs → Nodup xs
  Distinct-Nodup [] d = Nodup-nil
  Distinct-Nodup (x ∷ xs) (absent, d) =
      Nodup-cons.1 (λ m. ∥∥₁_elim m ⊥_prop (λ e. absent (Mem-Elem e)), Distinct-Nodup xs d)

  -- Lists without repetition with the same elements are equal up to their order.
  same_elements :
      (xs ys : List A)
      → Distinct xs
      → Distinct ys
      → ((x : A) → Elem x xs → Elem x ys)
      → ((x : A) → Elem x ys → Elem x xs)
      → ◌≡◌ {A = Multiset A} (of_list xs) (of_list ys)
  same_elements xs ys d e there back = coe-eq-coe.1 (
      (perm_ext_iff_of_Nodup (Distinct-Nodup xs d) (Distinct-Nodup ys e)).1 (λ a. (
        λ m. ∥∥₁_map m (λ i. Elem-Mem a ys (there a (Mem-Elem i))),
        λ m. ∥∥₁_map m (λ i. Elem-Mem a xs (back a (Mem-Elem i))),
      )))

zip-Elem : (k v : Bytes) (keys values : List Bytes) → Elem (k, v) (zip keys values) → Elem k keys
unfolding zip List.zip_with
zip-Elem k v [] values e = absurd e
zip-Elem k v (j ∷ keys) [] e = absurd e
zip-Elem k v (j ∷ keys) (w ∷ values) (inl e) = inl (ap (λ (p : Bytes × Bytes). p.0) e)
zip-Elem k v (j ∷ keys) (w ∷ values) (inr e) = inr (zip-Elem k v keys values e)

zip-Distinct : (keys values : List Bytes) → Distinct keys → Distinct (zip keys values)
unfolding zip List.zip_with
zip-Distinct [] values d = tt
zip-Distinct (j ∷ keys) [] d = tt
zip-Distinct (j ∷ keys) (w ∷ values) (absent, d) =
    (λ e. absent (zip-Elem j w keys values e), zip-Distinct keys values d)

-- The entry of a table that a look-up finds.
lookup-Elem :
    (k v : Bytes) (keys values : List Bytes)
    → lookup k keys values ≡ some v
    → Elem (k, v) (zip keys values)
unfolding lookup zip List.zip_with
lookup-Elem k v [] values found = cc found
lookup-Elem k v (j ∷ keys) [] found = cc found
lookup-Elem k v (j ∷ keys) (w ∷ values) found = elim (Bool-cases (bytes_eq j k)) [
  | inl same ↦
      let is_key : j ≡ k = bytes_eq→eq j k same in
      let is_value : w ≡ v = cc (rw same at found) in inl (λ i. (is_key i, is_value i))
  | inr other ↦ inr (lookup-Elem k v keys values (rw other at found))
]

Elem-lookup :
    (k v : Bytes) (keys values : List Bytes)
    → Distinct keys
    → Elem (k, v) (zip keys values)
    → lookup k keys values ≡ some v
unfolding lookup zip List.zip_with
Elem-lookup k v [] values d e = absurd e
Elem-lookup k v (j ∷ keys) [] d e = absurd e
Elem-lookup k v (j ∷ keys) (w ∷ values) (absent, d) (inl e) =
    let is_key : j ≡ k = ap (λ (p : Bytes × Bytes). p.0) e in
    rw (is_key, bytes_eq_refl k) (ap (λ (p : Bytes × Bytes). some p.1) e)
Elem-lookup k v (j ∷ keys) (w ∷ values) (absent, d) (inr e) =
    rw (ne→bytes_eq j k (λ same. absent (rw same (zip-Elem k v keys values e))))
      (Elem-lookup k v keys values d e)

answer_prop : (a b : Option Bytes) (p q : a ≡ b) → p ≡ q
answer_prop = Option.is_set (List.is_set ℕ_set)

-- The contents decide every answer.
pub contents-lookup :
    (keys values keys' values' : List Bytes) (k : Bytes)
    → Distinct keys
    → Distinct keys'
    → contents (zip keys values) ≡ contents (zip keys' values')
    → lookup k keys values ≡ lookup k keys' values'
contents-lookup keys values keys' values' k d e same = elim (Option-cases (lookup k keys values)) [
  | inl missing ↦ elim (Option-cases (lookup k keys' values')) [
    | inl missing' ↦ missing ∙ sym missing'
    | inr (v, found) ↦ moved keys' values' keys values v d found (sym same) ∙ sym found
  ]
  | inr (v, found) ↦ found ∙ sym (moved keys values keys' values' v e found same)
]
  where
    moved :
        (keys values keys' values' : List Bytes) (v : Bytes)
        → Distinct keys'
        → lookup k keys values ≡ some v
        → contents (zip keys values) ≡ contents (zip keys' values')
        → lookup k keys' values' ≡ some v
    moved keys values keys' values' v e found same =
        let m =
          (Perm.mem_iff (coe-eq-coe.0 same)).0
            ∣ Elem-Mem (k, v) (zip keys values) (lookup-Elem k v keys values found) ∣₁ in
        ∥∥₁_elim m (answer_prop (lookup k keys' values') (some v))
          (λ i. Elem-lookup k v keys' values' e (Mem-Elem i))

-- Tables that give every key the same answer have the same contents.
pub lookup-contents :
    (keys values keys' values' : List Bytes)
    → Distinct keys
    → Distinct keys'
    → ((k : Bytes) → lookup k keys values ≡ lookup k keys' values')
    → contents (zip keys values) ≡ contents (zip keys' values')
lookup-contents keys values keys' values' d e same =
    same_elements (zip keys values) (zip keys' values') (zip-Distinct keys values d)
      (zip-Distinct keys' values' e)
      (λ p i.
        lookup-Elem p.0 p.1 keys' values' (sym (same p.0) ∙ Elem-lookup p.0 p.1 keys values d i))
      (λ p i. lookup-Elem p.0 p.1 keys values (same p.0 ∙ Elem-lookup p.0 p.1 keys' values' e i))

-- Iteration over a loaded store gives the contents of its table: every entry once, in some order.
pub iter-contents {ℓ} :
    (E : Type ℓ) (go : GoFunction) (s : KvStore go) (keys values : List Bytes)
    → IsTable keys values
    → IsLoaded go s keys values
    → (pairs : List (Bytes × Bytes)) × (iter go {E = E} s ≡ ok pairs)
      × (contents pairs ≡ contents (zip keys values))
iter-contents E go s keys values table loaded =
    let (pairs, ran, listed) =
      iter_from-IsListed E go s keys values table loaded (length keys) 0 (omega arith) in
    (
      pairs,
      counted_run E go s keys values table loaded pairs ran,
      same_elements pairs (zip keys values) listed.apart
          (zip-Distinct keys values table.keys_distinct)
          (λ p e. lookup-Elem p.0 p.1 keys values (All-Elem _ p pairs listed.sound e))
          (λ p e.
            let there : Elem p.0 keys = zip-Elem p.0 p.1 keys values e in
            let (t, at, low) = loaded.perfect.slot p.0 there in
            listed.complete p.0 p.1 t there (Elem-lookup p.0 p.1 keys values table.keys_distinct e)
              at (omega arith) (omega arith)),
    )
