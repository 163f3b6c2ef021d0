-- ===== src/Builder/Inputs/Random.antt =====
-- The `random` command: the index in front of each key makes the keys distinct.
pub mod Built
use lowlatency.Common.{
  ℕ, zero, suc, ◌+◌, ◌^◌, ◌≤◌, ◌<◌, ◌≡◌, ◌≢◌, inl, inr, refl, sym, ap, ◌∙◌, arith, Bytes, List, [],
  ◌∷◌, ◌++◌, length, replicate, slice, splice, some, to_le_bytes, from_le_bytes, Elem, Distinct,
  All, length-replicate, bytes_eq_refl, ne→bytes_eq, length-splice, slice-splice_self,
  slice-splice_ne, length-to_le_bytes, from_le_bytes-to_le_bytes,
}
use native.Mathlib.Decide.{ℕ_discrete}
use lowlatency.Kv.Record.{IsKey, IsValue, key_size, value_size}
use lowlatency.Kv.Store.Loaded.{lookup, IsTable}
use lowlatency.Builder.Snapshot
use lowlatency.Builder.Snapshot.{SnapshotBuilder, add_record}
use lowlatency.Kv.Store
use lowlatency.Builder.Inputs.{append_nil, append_one, random_key, random_value, random_records}

module _ (fills : ℕ → Bytes × Bytes) where
  -- The keys and the values of `left` records from the `i`-th on.
  keys_from : ℕ → ℕ → List Bytes
  keys_from zero i = []
  keys_from (suc left) i = random_key fills i ∷ keys_from left (i + 1)

  values_from : ℕ → ℕ → List Bytes
  values_from zero i = []
  values_from (suc left) i = random_value fills i ∷ values_from left (i + 1)

  random_key-IsKey : (i : ℕ) → IsKey (random_key fills i)
  unfolding random_key
  random_key-IsKey i =
      length-splice 8 (fills i).0 (splice 0 (to_le_bytes 8 i) (replicate key_size 0))
      ∙ length-splice 0 (to_le_bytes 8 i) (replicate key_size 0)
      ∙ length-replicate key_size 0

  random_value-IsValue : (i : ℕ) → IsValue (random_value fills i)
  unfolding random_value
  random_value-IsValue i =
      length-splice 0 (fills i).1 (replicate value_size 0) ∙ length-replicate value_size 0

  -- The first eight bytes are the index.
  index_read : (i : ℕ) → slice 0 8 (random_key fills i) ≡ to_le_bytes 8 i
  unfolding random_key
  index_read i =
      let buffer : Bytes = replicate key_size 0 in
      let word : Bytes = to_le_bytes 8 i in
      slice-splice_ne 0 8 8 (fills i).0 (splice 0 word buffer) (inl (omega arith))
      ∙ ap (λ (n : ℕ). slice 0 n (splice 0 word buffer)) (sym (length-to_le_bytes 8 i))
      ∙ slice-splice_self 0 word buffer
          (omega (arith, length-to_le_bytes 8 i, length-replicate {A = ℕ} key_size 0))

  random_key-injective :
      (i j : ℕ) → i < 2 ^ 64 → j < 2 ^ 64 → random_key fills i ≡ random_key fills j → i ≡ j
  random_key-injective i j low high same =
      sym (from_le_bytes-to_le_bytes 8 i low)
      ∙ ap from_le_bytes (sym (index_read i) ∙ ap (slice 0 8) same ∙ index_read j)
      ∙ from_le_bytes-to_le_bytes 8 j high

  -- A key of an earlier index is not among them.
  keys_from-fresh :
      (left i j : ℕ) → j < i → i + left ≤ 2 ^ 64 → Elem (random_key fills j) (keys_from left i) → ⊥
  unfolding keys_from
  keys_from-fresh zero i j lo hi e = e
  keys_from-fresh (suc left) i j lo hi (inl same) =
      let equal : i ≡ j = random_key-injective i j (omega arith) (omega arith) same in omega arith
  keys_from-fresh (suc left) i j lo hi (inr e) =
      keys_from-fresh left (i + 1) j (omega arith) (omega arith) e

  keys_from-Distinct : (left i : ℕ) → i + left ≤ 2 ^ 64 → Distinct (keys_from left i)
  unfolding keys_from
  keys_from-Distinct zero i hi = tt
  keys_from-Distinct (suc left) i hi = (
    keys_from-fresh left (i + 1) i (omega arith) (omega arith),
    keys_from-Distinct left (i + 1) (omega arith),
  )

  keys_from-IsKey : (left i : ℕ) → All IsKey (keys_from left i)
  unfolding keys_from
  keys_from-IsKey zero i = tt
  keys_from-IsKey (suc left) i = (random_key-IsKey i, keys_from-IsKey left (i + 1))

  values_from-IsValue : (left i : ℕ) → All IsValue (values_from left i)
  unfolding values_from
  values_from-IsValue zero i = tt
  values_from-IsValue (suc left) i = (random_value-IsValue i, values_from-IsValue left (i + 1))

  length-keys_from : (left i : ℕ) → length (keys_from left i) ≡ left
  unfolding keys_from
  length-keys_from zero i = refl
  length-keys_from (suc left) i = ap suc (length-keys_from left (i + 1))

  length-values_from : (left i : ℕ) → length (values_from left i) ≡ left
  unfolding values_from
  length-values_from zero i = refl
  length-values_from (suc left) i = ap suc (length-values_from left (i + 1))

  keys_from-IsTable :
      (left i : ℕ) → i + left ≤ 2 ^ 64 → IsTable (keys_from left i) (values_from left i)
  keys_from-IsTable left i hi = record {
    keys_sized = keys_from-IsKey left i;
    values_sized = values_from-IsValue left i;
    keys_distinct = keys_from-Distinct left i hi;
    as_many = length-keys_from left i ∙ sym (length-values_from left i);
  }

  random_records-append :
      (left i : ℕ) (b : SnapshotBuilder)
      → ((random_records fills left i b).keys ≡ b.keys ++ keys_from left i)
        × ((random_records fills left i b).values ≡ b.values ++ values_from left i)
  unfolding random_records keys_from values_from add_record
  random_records-append zero i b = (sym (append_nil b.keys), sym (append_nil b.values))
  random_records-append (suc left) i b =
      let (k, v) =
        random_records-append left (i + 1)
          (add_record b (random_key fills i) (random_value fills i)) in
      (
        k ∙ append_one b.keys (random_key fills i) (keys_from left (i + 1)),
        v ∙ append_one b.values (random_value fills i) (values_from left (i + 1)),
      )

  random_records-new :
      (count : ℕ)
      → ((random_records fills count 0 Snapshot.new).keys ≡ keys_from count 0)
        × ((random_records fills count 0 Snapshot.new).values ≡ values_from count 0)
  unfolding Snapshot.new
  random_records-new count = random_records-append count 0 Snapshot.new

  lookup-keys_from :
      (left i j : ℕ)
      → i ≤ j
      → j < i + left
      → i + left ≤ 2 ^ 64
      → lookup (random_key fills j) (keys_from left i) (values_from left i)
        ≡ some (random_value fills j)
  unfolding lookup keys_from values_from
  lookup-keys_from zero i j lo at hi = absurd (omega arith)
  lookup-keys_from (suc left) i j lo at hi = elim (ℕ_discrete i j) [
    | yes same ↦ rw (same, bytes_eq_refl (random_key fills j))
    | no other ↦
        let apart : random_key fills i ≢ random_key fills j =
          λ e. other (random_key-injective i j (omega arith) (omega arith) e) in
        rw (ne→bytes_eq _ _ apart)
          (lookup-keys_from left (i + 1) j (omega arith) (omega arith) (omega arith))
  ]

  -- For a count of at most 2^64, the random records are a table with that many keys: keys of 64
  -- bytes, no two of them equal, and values of 256 bytes, whatever the generator fills in.
  pub random_records-IsTable :
      (count : ℕ)
      → count ≤ 2 ^ 64
      → IsTable
          (random_records fills count 0 Snapshot.new).keys
          (random_records fills count 0 Snapshot.new).values
        × (length (random_records fills count 0 Snapshot.new).keys ≡ count)
  random_records-IsTable count hi =
      let (k, v) = random_records-new count in
      rw (k, v) (keys_from-IsTable count 0 (omega arith), length-keys_from count 0)

  pub random_records-lookup :
      (count i : ℕ)
      → count ≤ 2 ^ 64
      → i < count
      → lookup
          (random_key fills i)
          (random_records fills count 0 Snapshot.new).keys
          (random_records fills count 0 Snapshot.new).values
        ≡ some (random_value fills i)
  random_records-lookup count i hi low =
      let (k, v) = random_records-new count in
      rw (k, v) (lookup-keys_from count 0 i (omega arith) (omega arith) (omega arith))
