-- ===== src/Builder/Snapshot/Records.antt =====
-- The loop that writes the records: every key finds its record in its slot, whatever the order in
-- which the slots are written.
use lowlatency.Common.{
  ℕ, ◌+◌, ◌-◌, ◌*◌, ◌^◌, ◌≤◌, ◌<◌, ◌≡◌, ◌≢◌, ◌⊎◌, inl, inr, refl, ◌∙◌, arith, Bytes, List, [], ◌∷◌,
  length, slice, splice, some, Elem, add64, mul64, ok, copy_from_slice_lem, length-splice,
  slice-splice_self, slice-splice_ne,
}
use native.Mathlib.Decide.{dec_lt}
use lowlatency.Kv.Record.{record_size, key_size, value_size, IsKey, IsValue}
use lowlatency.Kv.GoFunction.{GoFunction, IsPerfect}
use lowlatency.Kv.Mphf
use lowlatency.Kv.Mphf.{Mphf}
use lowlatency.Kv.Mphf.Slots.{IsPerfect-tail, get-some}
use lowlatency.Kv.Store.Loaded.{Placed, IsTable}
use lowlatency.Builder.Snapshot.{Output, BuildError, write_range, write_record, write_records}

pub write_range_lem :
    (a b : ℕ) (src : Bytes) (o : Output)
    → a ≤ b
    → b ≤ length o.contents
    → length src ≡ b - a
    → write_range a b src o ≡ (ok tt, record o { contents = splice a src o.contents })
unfolding write_range
write_range_lem a b src o h k e = rw (copy_from_slice_lem {E = BuildError} a b src o.contents h k e)

-- The file with one record more.
with_record : ℕ → Bytes → Bytes → Bytes → Bytes
with_record offset key value contents =
    splice (offset + key_size) value (splice offset key contents)

module _ (go : GoFunction) (m : Mphf go) (off n : ℕ) where
  write_record_lem :
      (key value : Bytes) (o : Output) (s : ℕ)
      → Mphf.slot_of go m key ≡ some s
      → s < n
      → IsKey key
      → IsValue value
      → off + n * record_size ≤ length o.contents
      → length o.contents < 2 ^ 64
      → write_record go m off key value o
        ≡ (ok tt, record o { contents = with_record (off + s * record_size) key value o.contents })
  unfolding write_record with_record
  write_record_lem key value o s at low sized_key sized_value room small =
      let offset : ℕ = off + s * record_size in
      let start : add64 off (mul64 s record_size) ≡ offset = omega arith in
      let middle : add64 offset key_size ≡ offset + key_size = omega arith in
      let end : add64 offset record_size ≡ offset + record_size = omega arith in
      rw (
        get-some {E = BuildError} go m key s at,
        start,
        middle,
        end,
        write_range_lem offset (offset + key_size) key o (omega arith) (omega arith) (omega arith),
        write_range_lem (offset + key_size) (offset + record_size) value
            (record o { contents = splice offset key o.contents }) (omega arith)
            (omega (arith, length-splice offset key o.contents)) (omega arith),
      )

  length-with_record :
      (offset : ℕ) (key value contents : Bytes)
      → length (with_record offset key value contents) ≡ length contents
  unfolding with_record
  length-with_record offset key value contents =
      length-splice (offset + key_size) value _ ∙ length-splice offset key contents

  -- Outside of the record nothing changes.
  with_record_ne :
      (p count offset : ℕ) (key value contents : Bytes)
      → IsKey key
      → IsValue value
      → (p + count ≤ offset) ⊎ (offset + record_size ≤ p)
      → slice p count (with_record offset key value contents) ≡ slice p count contents
  unfolding with_record
  with_record_ne p count offset key value contents sk sv apart =
      slice-splice_ne p count (offset + key_size) value _ (omega arith)
      ∙ slice-splice_ne p count offset key contents (omega arith)

  with_record_key :
      (offset : ℕ) (key value contents : Bytes)
      → IsKey key
      → IsValue value
      → offset + record_size ≤ length contents
      → slice offset key_size (with_record offset key value contents) ≡ key
  unfolding with_record
  with_record_key offset key value contents sk sv room =
      slice-splice_ne offset key_size (offset + key_size) value _ (omega arith)
      ∙ (rw sk at (slice-splice_self offset key contents (omega arith)))

  with_record_value :
      (offset : ℕ) (key value contents : Bytes)
      → IsValue value
      → offset + record_size ≤ length contents
      → slice (offset + key_size) value_size (with_record offset key value contents) ≡ value
  unfolding with_record
  with_record_value offset key value contents sv room = rw sv at (
      slice-splice_self (offset + key_size) value (splice offset key contents)
        (omega (arith, length-splice offset key contents)))

  -- A range that no record of the keys reaches into.
  abbrev pub Untouched : List Bytes → ℕ → ℕ → Type 0
  Untouched keys p count =
      (k : Bytes) (s : ℕ)
      → Elem k keys
      → Mphf.slot_of go m k ≡ some s
      → (p + count ≤ off + s * record_size) ⊎ (off + s * record_size + record_size ≤ p)

  -- What the loop leaves behind.
  pub record IsWritten (keys values : List Bytes) (before after : Output) : Type 0 where
    pub exists_same : after.exists ≡ before.exists
    pub length_same : length after.contents ≡ length before.contents
    pub frame :
        (p count : ℕ)
        → Untouched keys p count
        → slice p count after.contents ≡ slice p count before.contents
    pub placed : Placed (Mphf.slot_of go m) off after.contents keys values

  -- Two slots' records lie apart.
  apart :
      (s t p count : ℕ)
      → s ≢ t
      → off + s * record_size ≤ p
      → p + count ≤ off + s * record_size + record_size
      → (p + count ≤ off + t * record_size) ⊎ (off + t * record_size + record_size ≤ p)
  apart s t p count ne begins ends = elim (dec_lt s t) [
    | yes below ↦ inl (omega arith)
    | no above ↦ inr (omega arith)
  ]

  IsTable-tail :
      (k v : Bytes) (keys values : List Bytes)
      → IsTable (k ∷ keys) (v ∷ values)
      → IsTable keys values
  IsTable-tail k v keys values table = record {
    keys_sized = table.keys_sized.1;
    values_sized = table.values_sized.1;
    keys_distinct = table.keys_distinct.1;
    as_many = omega (arith, table.as_many);
  }

  -- One record is written first, and those of the other keys leave it alone.
  IsWritten-cons :
      (k v : Bytes) (keys values : List Bytes) (before after : Output) (s : ℕ)
      → IsPerfect (Mphf.slot_of go m) n (k ∷ keys)
      → IsTable (k ∷ keys) (v ∷ values)
      → Mphf.slot_of go m k ≡ some s
      → off + s * record_size + record_size ≤ length before.contents
      → IsWritten keys values
          (record before { contents = with_record (off + s * record_size) k v before.contents })
          after
      → IsWritten (k ∷ keys) (v ∷ values) before after
  IsWritten-cons k v keys values before after s p table at room w =
      let sk : IsKey k = table.keys_sized.0 in
      let sv : IsValue v = table.values_sized.0 in
      let offset : ℕ = off + s * record_size in
      record {
        exists_same = w.exists_same;
        length_same = w.length_same ∙ length-with_record offset k v before.contents;
        frame = λ q count untouched.
            w.frame q count (λ j t e there. untouched j t (inr e) there)
            ∙ with_record_ne q count offset k v before.contents sk sv (untouched k s (inl refl) at);
        placed = (
          (
            s,
            at,
            w.frame offset key_size (others offset key_size (omega arith) (omega arith))
                ∙ with_record_key offset k v before.contents sk sv room,
            w.frame (offset + key_size) value_size
                  (others (offset + key_size) value_size (omega arith) (omega arith))
                ∙ with_record_value offset k v before.contents sv room,
          ),
          w.placed,
        );
      }
    where
      others :
          (q count : ℕ)
          → off + s * record_size ≤ q
          → q + count ≤ off + s * record_size + record_size
          → Untouched keys q count
      others q count begins ends j t e there =
          apart s t q count
            (λ same. table.keys_distinct.0 (rw (p.injective k j (inl refl) (inr e) (cc)) e)) begins
            ends

  -- With a perfect index and room for every slot the loop ends well; each key's slot holds the
  -- key's record, and ranges that no record reaches into are as before.
  pub write_records_lem :
      (keys values : List Bytes) (o : Output)
      → IsPerfect (Mphf.slot_of go m) n keys
      → IsTable keys values
      → off + n * record_size ≤ length o.contents
      → length o.contents < 2 ^ 64
      → (after : Output) × (write_records go m off keys values o ≡ (ok tt, after))
        × IsWritten keys values o after
  unfolding write_records
  write_records_lem [] values o p table room small = (
    o,
    refl,
    record { exists_same = refl; length_same = refl; frame = λ q count u. refl; placed = tt },
  )
  write_records_lem (k ∷ keys) [] o p table room small = absurd (omega (arith, table.as_many))
  write_records_lem (k ∷ keys) (v ∷ values) o p table room small =
      let (s, at, low) = p.slot k (inl refl) in
      let o' : Output = record o {
        contents = with_record (off + s * record_size) k v o.contents;
      } in
      let same_length : length o'.contents ≡ length o.contents =
        length-with_record (off + s * record_size) k v o.contents in
      let (after, ran, w) =
        write_records_lem keys values o' (IsPerfect-tail (Mphf.slot_of go m) n k keys p)
          (IsTable-tail k v keys values table) (omega arith) (omega arith) in
      (
        after,
        rw (write_record_lem k v o s at low table.keys_sized.0 table.values_sized.0 room small) ran,
        IsWritten-cons k v keys values o after s p table at (omega arith) w,
      )

-- With a perfect index into `n` slots and room for them, the loop that writes the records of a
-- table ends well, and the file keeps its length. Each key's slot then holds the key and its value,
-- in whatever order the slots were written, and a range that no key's record reaches into is as
-- before.
pub write_records-Placed :
    (go : GoFunction) (m : Mphf go) (off n : ℕ) (keys values : List Bytes) (o : Output)
    (q count : ℕ)
    → IsPerfect (Mphf.slot_of go m) n keys
    → IsTable keys values
    → off + n * record_size ≤ length o.contents
    → length o.contents < 2 ^ 64
    → Untouched go m off n keys q count
    → (after : Output) × (write_records go m off keys values o ≡ (ok tt, after))
      × (length after.contents ≡ length o.contents)
      × Placed (Mphf.slot_of go m) off after.contents keys values
      × (slice q count after.contents ≡ slice q count o.contents)
write_records-Placed go m off n keys values o q count p table room small untouched =
    let (after, ran, w) = write_records_lem go m off n keys values o p table room small in
    (after, ran, w.length_same, w.placed, w.frame q count untouched)
