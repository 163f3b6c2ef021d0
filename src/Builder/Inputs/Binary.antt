-- ===== src/Builder/Inputs/Binary.antt =====
-- The `from-binary` command: a file of records, one behind the other, without a header.
use lowlatency.Common.{
  ℕ, zero, suc, ◌+◌, ◌-◌, ◌*◌, ◌/◌, ◌%◌, ◌^◌, ◌≤◌, ◌<◌, ◌≡◌, refl, sym, ap, ◌∙◌, arith, Bytes, List,
  [], ◌∷◌, ◌++◌, length, slice, add64, mul64, All, ok, err, index_range_lem, ◌≢◌, eq→==, ne→==,
  length-slice, slice-append, slice_all,
}
use lowlatency.Kv.Record.{IsKey, IsValue, key_size, value_size, record_size}
use lowlatency.Builder.Snapshot
use lowlatency.Kv.GoFunction.{GoFunction}
use lowlatency.Builder.Snapshot.{SnapshotBuilder, Calls, Output, add_record}
use lowlatency.Builder.Inputs.{
  InputError, message, build_from_binary, binary_records, records_of_binary, size_message,
  append_nil, append_one,
}

-- The binary file of a list of records.
unfoldable pub file_of : List Bytes → List Bytes → Bytes
file_of (k ∷ keys) (v ∷ values) = k ++ (v ++ file_of keys values)
file_of keys values = []

module _ (mmap : Bytes) where
  -- The keys and the values of `left` records from the `i`-th on.
  keys_at : ℕ → ℕ → List Bytes
  keys_at zero i = []
  keys_at (suc left) i = slice (i * record_size) key_size mmap ∷ keys_at left (i + 1)

  values_at : ℕ → ℕ → List Bytes
  values_at zero i = []
  values_at (suc left) i =
      slice (i * record_size + key_size) value_size mmap ∷ values_at left (i + 1)

  binary_records-append :
      (left i : ℕ) (b : SnapshotBuilder)
      → (i + left) * record_size ≤ length mmap
      → length mmap < 2 ^ 64
      → binary_records mmap left i b
        ≡ ok (record { keys = b.keys ++ keys_at left i; values = b.values ++ values_at left i })
  unfolding binary_records keys_at values_at add_record
  binary_records-append zero i b room small =
      λ j. ok (record { keys = sym (append_nil b.keys) j; values = sym (append_nil b.values) j })
  binary_records-append (suc left) i b room small =
      let offset : ℕ = i * record_size in
      let key : Bytes = slice offset key_size mmap in
      let value : Bytes = slice (offset + key_size) value_size mmap in
      let start : mul64 i record_size ≡ offset = omega arith in
      let middle : add64 offset key_size ≡ offset + key_size = omega arith in
      let end : add64 offset record_size ≡ offset + record_size = omega arith in
      let key_sized : offset + key_size - offset ≡ key_size = omega arith in
      let value_sized : offset + record_size - (offset + key_size) ≡ value_size = omega arith in
      rw
        (
          start,
          middle,
          end,
          index_range_lem {E = InputError} offset (offset + key_size) mmap (omega arith)
              (omega arith),
          index_range_lem {E = InputError} (offset + key_size) (offset + record_size) mmap
              (omega arith) (omega arith),
          key_sized,
          value_sized,
        )
        (binary_records-append left (i + 1) (add_record b key value) (omega arith) small ∙ λ j.
          ok (record {
            keys = append_one b.keys key (keys_at left (i + 1)) j;
            values = append_one b.values value (values_at left (i + 1)) j;
          }))

  slice_zero : (o : ℕ) → slice o (0 * record_size) mmap ≡ []
  unfolding slice
  slice_zero o =
      let none_left : 0 * record_size ≡ 0 = omega arith in ap (λ (n : ℕ). slice o n mmap) none_left

  file_of-records :
      (left i : ℕ)
      → file_of (keys_at left i) (values_at left i)
        ≡ slice (i * record_size) (left * record_size) mmap
  unfolding file_of keys_at values_at
  file_of-records zero i = sym (slice_zero (i * record_size))
  file_of-records (suc left) i =
      let offset : ℕ = i * record_size in
      let tail : ℕ = left * record_size in
      ap
        (λ (t : Bytes).
          slice offset key_size mmap ++ (slice (offset + key_size) value_size mmap ++ t))
        (file_of-records left (i + 1) ∙ ap (λ (o : ℕ). slice o tail mmap) (omega arith))
      ∙ ap (λ (t : Bytes). slice offset key_size mmap ++ t)
          (sym (slice-append (offset + key_size) value_size tail mmap))
      ∙ sym (slice-append offset key_size (value_size + tail) mmap)
      ∙ ap (λ (n : ℕ). slice offset n mmap) (omega arith)

  keys_at-IsKey : (left i : ℕ) → (i + left) * record_size ≤ length mmap → All IsKey (keys_at left i)
  unfolding keys_at
  keys_at-IsKey zero i room = tt
  keys_at-IsKey (suc left) i room = (
    length-slice (i * record_size) key_size mmap (omega arith),
    keys_at-IsKey left (i + 1) (omega arith),
  )

  values_at-IsValue :
      (left i : ℕ) → (i + left) * record_size ≤ length mmap → All IsValue (values_at left i)
  unfolding values_at
  values_at-IsValue zero i room = tt
  values_at-IsValue (suc left) i room = (
    length-slice (i * record_size + key_size) value_size mmap (omega arith),
    values_at-IsValue left (i + 1) (omega arith),
  )

  length-keys_at : (left i : ℕ) → length (keys_at left i) ≡ left
  unfolding keys_at
  length-keys_at zero i = refl
  length-keys_at (suc left) i = ap suc (length-keys_at left (i + 1))

  length-values_at : (left i : ℕ) → length (values_at left i) ≡ left
  unfolding values_at
  length-values_at zero i = refl
  length-values_at (suc left) i = ap suc (length-values_at left (i + 1))

  whole_count :
      length mmap % record_size ≡ 0 → (0 + length mmap / record_size) * record_size ≡ length mmap
  whole_count whole = omega arith

  -- A file of a whole number of records, of fewer than 2^64 bytes, is read without a panic. There
  -- are as many keys, and as many values, as the file has room for records, all keys have 64 bytes
  -- and all values 256, and written one behind the other the records are the file again.
  pub records_of_binary-file_of :
      length mmap < 2 ^ 64
      → length mmap % record_size ≡ 0
      → (b : SnapshotBuilder) × (records_of_binary mmap ≡ ok b)
        × (file_of b.keys b.values ≡ mmap)
        × All IsKey b.keys
        × All IsValue b.values
        × (length b.keys ≡ length mmap / record_size)
        × (length b.values ≡ length mmap / record_size)
  unfolding records_of_binary Snapshot.new
  records_of_binary-file_of small whole =
      let count : ℕ = length mmap / record_size in
      let full : (0 + count) * record_size ≡ length mmap = whole_count whole in
      let sized : count * record_size ≡ length mmap = omega arith in
      let room : (0 + count) * record_size ≤ length mmap = omega arith in
      (
        record { keys = keys_at count 0; values = values_at count 0 },
        rw (eq→== _ _ whole) (binary_records-append count 0 Snapshot.new room small),
        file_of-records count 0
            ∙ ap (λ (n : ℕ). slice (0 * record_size) n mmap) sized
            ∙ slice_all (length mmap) mmap refl,
        keys_at-IsKey count 0 room,
        values_at-IsValue count 0 room,
        length-keys_at count 0,
        length-values_at count 0,
      )

-- A binary file whose size is not a multiple of the size of a record makes the command fail with a
-- message that names the size, and the output is left as it was.
pub build_from_binary_cut :
    (go : GoFunction) (sha256 : Bytes → Bytes) (calls : Calls) (timestamp : ℕ) (mmap : Bytes)
    (o : Output)
    → length mmap % record_size ≢ 0
    → build_from_binary go sha256 calls timestamp (ok mmap) o
      ≡ (err (message (size_message (length mmap))), o)
unfolding build_from_binary records_of_binary
build_from_binary_cut go sha256 calls timestamp mmap o cut = rw (ne→== _ _ cut)
