-- ===== src/Kv/Mphf/Stored.antt =====
-- The index as bytes: `deserialize` reads back what `serialize` wrote.
use lowlatency.Common.{
  ℕ, ◌+◌, ◌-◌, ◌^◌, ◌<◌, ◌≡◌, refl, ap, ◌∙◌, arith, ◌++◌, Bytes, length, take, drop, take-append,
  drop-append, slice, slice_all, length-append, length-to_le_bytes, to_le_bytes, from_le_bytes,
  from_le_bytes-to_le_bytes, IsU64, le→ltb_false, ok,
}
use lowlatency.Kv.Error.{Error}
use lowlatency.Kv.GoFunction.{GoFunction, Answers, IsLawful}
use lowlatency.Kv.Mphf.{Mphf, get, slot_of, serialize, deserialize}

module _ (count : ℕ) (body : Bytes) where
  prefixed : Bytes
  prefixed = to_le_bytes 8 count ++ body

  length-prefixed : length prefixed ≡ length body + 8
  unfolding prefixed
  length-prefixed =
      omega (arith, length-append (to_le_bytes 8 count) body, length-to_le_bytes 8 count)

  count_read : IsU64 count → from_le_bytes (slice 0 8 prefixed) ≡ count
  unfolding prefixed slice
  count_read fits =
      ap from_le_bytes (take-append 8 (to_le_bytes 8 count) body (length-to_le_bytes 8 count))
      ∙ from_le_bytes-to_le_bytes 8 count (omega arith)

  dropped : drop 8 prefixed ≡ body
  unfolding prefixed
  dropped = drop-append 8 (to_le_bytes 8 count) body (length-to_le_bytes 8 count)

  body_read : slice 8 (length prefixed - 8) prefixed ≡ body
  unfolding slice
  body_read =
      ap (take (length prefixed - 8)) dropped
      ∙ (unfold slice in slice_all (length prefixed - 8) body (omega (arith, length-prefixed)))

-- An index is read back with its key count and a function with the same look-ups.
pub deserialize-same :
    (go : GoFunction) (m : Mphf go) (body : Bytes)
    → IsLawful go
    → IsU64 m.key_count
    → go.write m.function ≡ ok body
    → (bytes : Bytes) × (serialize go m ≡ ok bytes)
      × (length bytes < 2 ^ 63)
      × (m' : Mphf go) × (deserialize go bytes ≡ ok m')
      × (m'.key_count ≡ m.key_count)
      × ((k : Bytes) → go.get m'.function k ≡ go.get m.function k)
unfolding serialize deserialize
deserialize-same go m body lawful fits written =
    let (g, loaded, same) = lawful.reads m.function body written in
    let sized : length (prefixed m.key_count body) ≡ length body + 8 =
      length-prefixed m.key_count body in
    (
      prefixed m.key_count body,
      rw written (unfold prefixed in refl),
      omega (arith, sized, lawful.fits m.function body written),
      record { function = g; key_count = m.key_count },
      rw (
        le→ltb_false (length (prefixed m.key_count body)) 8 (omega (arith, sized)),
        count_read m.key_count body fits,
        body_read m.key_count body,
        loaded,
      ),
      refl,
      same,
    )

module _ (go : GoFunction) where
  -- What two functions with the same look-ups have in common.
  pub Answers-same :
      (f g : go.Function) → ((k : Bytes) → go.get g k ≡ go.get f k) → Answers go f → Answers go g
  Answers-same f g same total k = let (found, at) = total k in (found, same k ∙ at)

  pub slot_of-same :
      (m m' : Mphf go)
      → ((k : Bytes) → go.get m'.function k ≡ go.get m.function k)
      → m'.key_count ≡ m.key_count
      → (k : Bytes) → slot_of go m' k ≡ slot_of go m k
  unfolding slot_of
  slot_of-same m m' same count k = rw (same k, count) refl

-- An index whose function can be written serializes to less than 2^63 bytes, which deserialize to
-- an index with the same key count that gives every key, known or not, the same slot, or panics at
-- it as well.
pub deserialize-serialize :
    (go : GoFunction) (m : Mphf go) (body : Bytes)
    → IsLawful go
    → IsU64 m.key_count
    → go.write m.function ≡ ok body
    → (bytes : Bytes) × (serialize go m ≡ ok bytes)
      × (length bytes < 2 ^ 63)
      × (m' : Mphf go) × (deserialize go bytes ≡ ok m')
      × (m'.key_count ≡ m.key_count)
      × ((k : Bytes) → get go {E = Error} m' k ≡ get go {E = Error} m k)
unfolding get
deserialize-serialize go m body lawful fits written =
    let (bytes, wrote, small, m', read, count, same) =
      deserialize-same go m body lawful fits written in
    (bytes, wrote, small, m', read, count, λ k. rw (same k, count) refl)
