-- ===== src/Builder/Snapshot/Layout.antt =====
-- The file that `build` leaves is a complete snapshot of the builder's records.
use lowlatency.Common.{
  ℕ, ◌+◌, ◌-◌, ◌*◌, ◌^◌, ◌≤◌, ◌<◌, ◌≡◌, inl, inr, refl, sym, ap, ◌∙◌, arith, Bytes, List, [], ◌∷◌,
  length, slice, splice, replicate, Option, true, none, add64, mul64, ok, length-splice,
  slice-splice_self, slice-splice_ne, length-append, length-replicate, index_range_lem, Bool-cases,
  ltb, length-take, take, Text, some, Outcome, err,
}
use lowlatency.Kv.Header
use lowlatency.Kv.Header.{Header, header_size}
use lowlatency.Kv.Header.Layout.{length-to_bytes}
use lowlatency.Kv.Record.{record_size, key_size, value_size}
use lowlatency.Kv.GoFunction.{GoFunction, IsPerfect}
use lowlatency.Kv.Mphf
use lowlatency.Kv.Mphf.{Mphf}
use lowlatency.Kv.Store.Loaded.{Placed, IsTable}
use lowlatency.Builder.Snapshot.{
  Output, Calls, BuildError, map_not_flushed, SnapshotBuilder, write_range, write_records, resize,
  pad, skip, write_file, call, truncated, resized, current_len, read_range,
}
use lowlatency.Builder.Snapshot.Records.{write_range_lem, write_records_lem}

-- Every system call succeeds.
abbrev pub all_succeed : Calls
all_succeed = record { create = none; set_len = none; map_mut = none; flush = none }

-- Every system call succeeds up to the last, the flush of the map, which ends in `flush`.
abbrev pub up_to_flush : Option Text → Calls
up_to_flush flush = record { create = none; set_len = none; map_mut = none; flush = flush }

unfoldable pub flushed : Option Text → Outcome BuildError (Unit {0})
flushed none = ok tt
flushed (some e) = err (map_not_flushed e)

flush_lem :
    (flush : Option Text) (o : Output) → call map_not_flushed flush (λ x. x) o ≡ (flushed flush, o)
unfolding call flushed
flush_lem none o = refl
flush_lem (some e) o = refl

length-resize : (n : ℕ) (bytes : Bytes) → length (resize n bytes) ≡ n
unfolding resize
length-resize n bytes = omega (
  arith,
  length-append (take n bytes) (replicate (n - length bytes) 0),
  length-take n bytes,
  length-replicate {A = ℕ} (n - length bytes) 0,
)

-- The padding writes between the index and the data, and nowhere else.
pad_lem :
    (a b : ℕ) (o : Output)
    → b ≤ length o.contents
    → (after : Output) × (pad a b o ≡ (ok tt, after))
      × (after.exists ≡ o.exists)
      × (length after.contents ≡ length o.contents)
      × ((p n : ℕ) → p + n ≤ a → slice p n after.contents ≡ slice p n o.contents)
unfolding pad skip
pad_lem a b o room = elim (Bool-cases (ltb a b)) [
  | inl gap ↦
      let zeros : Bytes = replicate (b - a) 0 in
      let sized : length zeros ≡ b - a = length-replicate (b - a) 0 in
      (
        record o { contents = splice a zeros o.contents },
        rw gap (unfold write_range in write_range_lem a b zeros o (ground arith) room sized),
        refl,
        length-splice a zeros o.contents,
        λ p n before. slice-splice_ne p n a zeros o.contents (inl before),
      )
  | inr none_left ↦ (o, rw none_left, refl, refl, λ p n before. refl)
]

-- What is read in the data section does not depend on the bytes before it.
Placed-frame :
    (slot_of : Bytes → Option ℕ) (off : ℕ) (c c' : Bytes) (keys values : List Bytes)
    → ((p n : ℕ) → off ≤ p → slice p n c' ≡ slice p n c)
    → Placed slot_of off c keys values
    → Placed slot_of off c' keys values
Placed-frame slot_of off c c' [] values same p = tt
Placed-frame slot_of off c c' (k ∷ keys) [] same p = tt
Placed-frame slot_of off c c' (k ∷ keys) (v ∷ values) same ((s, at, key_there, value_there), rest) =
    (
      (
        s,
        at,
        same (off + s * record_size) key_size (omega arith) ∙ key_there,
        same (off + s * record_size + key_size) value_size (omega arith) ∙ value_there,
      ),
      Placed-frame slot_of off c c' keys values same rest,
    )

-- The state that the writing of the file leads to, from what the header and the index are.
module _ (go : GoFunction) (sha256 : Bytes → Bytes) (h : Header) (m : Mphf go) (index : Bytes)
    (b : SnapshotBuilder) where
  -- The room that the layout has.
  pub record IsLaidOut : Type 0 where
    pub index_before_data : header_size + length index ≤ h.data_offset
    pub addressable : h.data_offset + length b.keys * record_size < 2 ^ 64

  unfoldable pub final_header : Bytes → Header
  final_header contents = record h {
    checksum = sha256 (slice h.data_offset (length contents - h.data_offset) contents);
  }

  -- What holds of the finished file.
  pub record IsFinished (o : Output) : Type 0 where
    pub there : o.exists ≡ true
    pub sized : length o.contents ≡ h.data_offset + length b.keys * record_size
    pub header_there : slice 0 header_size o.contents ≡ Header.to_bytes (final_header o.contents)
    pub index_there : slice header_size (length index) o.contents ≡ index
    pub placed : Placed (Mphf.slot_of go m) h.data_offset o.contents b.keys b.values

  record IsFilled (o : Output) : Type 0 where
    there : o.exists ≡ true
    sized : length o.contents ≡ h.data_offset + length b.keys * record_size
    index_there : slice header_size (length index) o.contents ≡ index
    placed : Placed (Mphf.slot_of go m) h.data_offset o.contents b.keys b.values

  -- The header comes last, over the first page.
  with_header : Output → Output
  with_header o = record o {
    contents = splice 0 (Header.to_bytes (final_header o.contents)) o.contents;
  }

  with_header-IsFinished : (o : Output) → IsLaidOut → IsFilled o → IsFinished (with_header o)
  unfolding with_header
  with_header-IsFinished o laid filled =
      let head : Bytes = Header.to_bytes (final_header o.contents) in
      let head_size : length head ≡ header_size = length-to_bytes (final_header o.contents) in
      let behind : (p n : ℕ)
          → header_size ≤ p
          → slice p n (splice 0 head o.contents) ≡ slice p n o.contents =
        λ p n past. slice-splice_ne p n 0 head o.contents (inr (omega arith)) in
      let same_size : length (splice 0 head o.contents) ≡ length o.contents =
        length-splice 0 head o.contents in
      let same_data : slice h.data_offset (length (splice 0 head o.contents) - h.data_offset)
            (splice 0 head o.contents)
          ≡ slice h.data_offset (length o.contents - h.data_offset) o.contents =
        rw same_size (behind h.data_offset _ (omega (arith, laid.index_before_data))) in
      let same_header : final_header (splice 0 head o.contents) ≡ final_header o.contents =
        unfold final_header in ap (λ (t : Bytes). record h { checksum = sha256 t }) same_data in
      record {
        there = filled.there;
        sized = same_size ∙ filled.sized;
        header_there =
            (rw head_size at (slice-splice_self 0 head o.contents (omega arith)))
            ∙ ap Header.to_bytes (sym same_header);
        index_there = behind header_size (length index) (omega arith) ∙ filled.index_there;
        placed =
            Placed-frame (Mphf.slot_of go m) h.data_offset o.contents (splice 0 head o.contents)
              b.keys b.values (λ p n past. behind p n (omega (arith, laid.index_before_data)))
              filled.placed;
      }

  -- Index, padding and records, in the file of zeros.
  fills :
      (o : Output)
      → IsLaidOut
      → IsPerfect (Mphf.slot_of go m) (length b.keys) b.keys
      → IsTable b.keys b.values
      → o.exists ≡ true
      → length o.contents ≡ h.data_offset + length b.keys * record_size
      → (o₁ : Output) × (write_range header_size (header_size + length index) index o ≡ (ok tt, o₁))
        × (o₂ : Output) × (pad (header_size + length index) h.data_offset o₁ ≡ (ok tt, o₂))
        × (o₃ : Output) × (write_records go m h.data_offset b.keys b.values o₂ ≡ (ok tt, o₃))
        × IsFilled o₃
  fills o laid perfect table there sized =
      let o₁ : Output = record o { contents = splice header_size index o.contents } in
      let wrote =
        write_range_lem header_size (header_size + length index) index o (omega arith)
          (omega (arith, laid.index_before_data)) (omega arith) in
      let same₁ : length o₁.contents ≡ length o.contents =
        length-splice header_size index o.contents in
      let (o₂, padded, there₂, same₂, kept₂) =
        pad_lem (header_size + length index) h.data_offset o₁ (omega arith) in
      let (o₃, ran, w) =
        write_records_lem go m h.data_offset (length b.keys) b.keys b.values o₂ perfect table
          (omega arith) (omega (arith, laid.addressable)) in
      (
        o₁,
        wrote,
        o₂,
        padded,
        o₃,
        ran,
        record {
          there = w.exists_same ∙ there₂ ∙ there;
          sized = w.length_same ∙ same₂ ∙ same₁ ∙ sized;
          index_there =
              w.frame header_size (length index)
                (λ k s e at. inl (omega (arith, laid.index_before_data)))
              ∙ kept₂ header_size (length index) (omega arith)
              ∙ slice-splice_self header_size index o.contents
                  (omega (arith, laid.index_before_data));
          placed = w.placed;
        },
      )

  -- With all system calls succeeding up to the flush, the file is finished, whatever was at the
  -- path before.
  pub write_file_lem :
      (o : Output)
      → IsLaidOut
      → IsPerfect (Mphf.slot_of go m) (length b.keys) b.keys
      → IsTable b.keys b.values
      → (after : Output) × ((flush : Option Text)
          → write_file go sha256 (up_to_flush flush) h m index b o ≡ (flushed flush, after))
        × IsFinished after
  unfolding write_file call truncated resized current_len read_range final_header with_header
  write_file_lem o laid perfect table =
      let total : ℕ = h.data_offset + length b.keys * record_size in
      let sum : add64 h.data_offset (mul64 (length b.keys) record_size) ≡ total =
        omega (arith, laid.addressable) in
      let end : add64 header_size (length index) ≡ header_size + length index =
        omega (arith, laid.addressable, laid.index_before_data) in
      let empty : Output = record { exists = true; contents = resize total [] } in
      let (o₁, wrote, o₂, padded, o₃, ran, filled) =
        fills empty laid perfect table refl (length-resize total []) in
      let section =
        index_range_lem {E = BuildError} h.data_offset (length o₃.contents) o₃.contents
          (omega (arith, filled.sized)) (omega arith) in
      let headed =
        write_range_lem 0 header_size (Header.to_bytes (final_header o₃.contents)) o₃ (omega arith)
          (omega (arith, filled.sized, laid.index_before_data))
          (omega (arith, length-to_bytes (final_header o₃.contents))) in
      (
        with_header o₃,
        λ flush.
            rw (sum, end, wrote, padded, ran, section, headed) (flush_lem flush (with_header o₃)),
        with_header-IsFinished o₃ laid filled,
      )
