-- ===== src/Kv/GoFunction.antt =====
-- The minimal perfect hash function of the crate `ph`: its operations, and what it documents.
use lowlatency.Common.{
  ℕ, ◌+◌, ◌^◌, ◌<◌, ◌≤◌, ◌≡◌, Bytes, Text, length, List, All, Elem, Distinct, Option, none, some,
  Outcome, ok,
}
use lowlatency.Kv.Header.{max_records}
use lowlatency.Kv.Record.{IsKey}

-- `ph::fmph::GOFunction`
pub record GoFunction : Type 1 where
  pub Function : Type 0
  -- `from_slice_with_conf`, with `none` where the crate gives up
  pub from_slice : List Bytes → Option Function
  -- with an outer `none` where it panics, as it may for a function that was read from other bytes
  pub get : Function → Bytes → Option (Option ℕ)
  pub write : Function → Outcome Text Bytes
  pub read : Bytes → Outcome Text Function
  pub size_bytes : Function → ℕ

-- No key makes `get` panic.
abbrev pub Answers : (go : GoFunction) → go.Function → Type 0
Answers go f = (k : Bytes) → (found : Option ℕ) × (go.get f k ≡ some found)

-- The slot that a look-up gives, where it gives one.
unfoldable pub given : Option (Option ℕ) → Option ℕ
given none = none
given (some found) = found

-- A perfect assignment of slots: different keys have different slots, all of them below `n`.
pub record IsPerfect (slot_of : Bytes → Option ℕ) (n : ℕ) (keys : List Bytes) : Type 0 where
  pub slot : (k : Bytes) → Elem k keys → (s : ℕ) × (slot_of k ≡ some s) × (s < n)
  pub injective : (j k : Bytes) → Elem j keys → Elem k keys → slot_of j ≡ slot_of k → j ≡ k

-- What the crate documents: distinct keys, up to the number that a snapshot may hold, get a perfect
-- function, which can be written to memory; a function that was written is read back as one with
-- the same slots. A `Vec` holds at most 2^63 - 1 bytes, and eight of them are the wrapper's.
pub record IsLawful (go : GoFunction) : Type 0 where
  pub builds :
      (keys : List Bytes)
      → All IsKey keys
      → Distinct keys
      → length keys ≤ max_records
      → (f : go.Function) × (go.from_slice keys ≡ some f)
        × Answers go f
        × IsPerfect (λ k. given (go.get f k)) (length keys) keys
        × (bytes : Bytes) × (go.write f ≡ ok bytes)
  pub fits : (f : go.Function) (bytes : Bytes) → go.write f ≡ ok bytes → length bytes + 8 < 2 ^ 63
  pub reads :
      (f : go.Function) (bytes : Bytes)
      → go.write f ≡ ok bytes
      → (g : go.Function) × (go.read bytes ≡ ok g) × ((k : Bytes) → go.get g k ≡ go.get f k)
