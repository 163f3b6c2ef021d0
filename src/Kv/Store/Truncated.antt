-- ===== src/Kv/Store/Truncated.antt =====
-- Files that are the beginning of a snapshot: a copy that was interrupted.
use lowlatency.Common.{
  ℕ, ◌+◌, ◌-◌, ◌*◌, ◌≤◌, ◌<◌, ◌≡◌, inl, inr, refl, sym, ◌∙◌, arith, Bytes, List, length, take,
  length-take, slice, slice-slice, true, false, ◌==◌, eq→==, leb, ltb, add64, mul64, Bool-cases,
  if◌then◌else◌, ok, err, panic, index_range, index_range_lem, lt→ltb,
}
use lowlatency.Kv.Error.{Error, file_too_small}
use lowlatency.Kv.Header
use lowlatency.Kv.Header.{Header, header_size}
use lowlatency.Kv.Header.Layout.{from_bytes-to_bytes}
use lowlatency.Kv.Record.{record_size}
use lowlatency.Kv.GoFunction.{GoFunction}
use lowlatency.Kv.Mphf
use lowlatency.Kv.Mphf.{Mphf}
use lowlatency.Kv.Store.{open_bytes}
use lowlatency.Kv.Store.Opening.{IsSnapshot, open_bytes_panics}

slice-take :
    (o size n : ℕ) (bytes : Bytes) → o + size ≤ n → slice o size (take n bytes) ≡ slice o size bytes
unfolding slice
slice-take o size n bytes inside = slice-slice o size 0 n o bytes inside (omega arith)

module _ (go : GoFunction) (bytes : Bytes) (h : Header) (index : Bytes) (m : Mphf go)
    (keys values : List Bytes) (snap : IsSnapshot go bytes h index m keys values) where
  data_end : ℕ
  data_end = h.data_offset + length keys * record_size

  module _ (n : ℕ) (cut : n < data_end) where
    sized : length (take n bytes) ≡ n
    unfolding data_end
    sized = length-take n bytes ∙ omega (arith, snap.data_inside, cut)

    cut_header : header_size ≤ n → Header.from_bytes (take n bytes) ≡ ok h
    unfolding data_end
    cut_header long =
        from_bytes-to_bytes h (take n bytes) snap.header_sized (omega (arith, sized))
          (slice-take 0 header_size n bytes (omega arith) ∙ snap.header_there)
        ∙ rw snap.header_valid

    cut_in_header :
        n < header_size → open_bytes go (take n bytes) ≡ err (file_too_small n header_size)
    unfolding open_bytes Header.from_bytes
    cut_in_header short = rw (sized, lt→ltb n header_size short) refl

    cut_in_index :
        header_size ≤ n → n < header_size + length index → open_bytes go (take n bytes) ≡ panic
    unfolding data_end
    cut_in_index long short = open_bytes_panics go (take n bytes) h (cut_header long) (
        inl (
          omega (
            arith, sized, snap.index_size, snap.index_before_data, snap.data_inside,
            snap.addressable,
          )))

    cut_index :
        header_size + length index ≤ n
        → index_range {E = Error} header_size (add64 header_size h.mphf_size) (take n bytes)
          ≡ ok index
    unfolding data_end
    cut_index long =
        let end : add64 header_size h.mphf_size ≡ header_size + length index =
          omega
            (arith, snap.index_size, snap.index_before_data, snap.data_inside, snap.addressable) in
        let between : header_size + length index - header_size ≡ length index = omega arith in
        rw
          (
            end,
            index_range_lem {E = Error} header_size (header_size + length index) (take n bytes)
                (omega arith) (omega (arith, sized, long)),
            between,
            slice-take header_size (length index) n bytes long,
            snap.index_there,
          )
          refl

    cut_in_data :
        header_size + length index ≤ n
        → open_bytes go (take n bytes) ≡ err (file_too_small n data_end)
    unfolding open_bytes Mphf.len data_end
    cut_in_data long =
        let counts : (m.key_count == h.record_count) ≡ true =
          eq→== _ _ (snap.indexed ∙ sym snap.counted) in
        let end : add64 h.data_offset (mul64 h.record_count record_size) ≡ data_end =
          omega (arith, snap.counted, snap.data_inside, snap.addressable) in
        let beyond : leb data_end n ≡ false = ground (arith, cut) in
        rw
          (
            cut_header (omega (arith, long)),
            cut_index long,
            snap.index_read,
            counts,
            end,
            sized,
            beyond,
          )
          refl

  -- A snapshot that is cut anywhere before the end of its records does not open: in the header and
  -- behind the index this is an error that says how long the file is and should be, and in the
  -- index `open` panics.
  pub open_bytes-take :
      (n : ℕ)
      → n < h.data_offset + length keys * record_size
      → open_bytes go (take n bytes) ≡ (
          if ltb n header_size
          then err (file_too_small n header_size)
          else if ltb n (header_size + length index)
          then panic
          else err (file_too_small n (h.data_offset + length keys * record_size)))
  unfolding data_end
  open_bytes-take n cut = elim (Bool-cases (ltb n header_size)) [
    | inl short ↦ rw short (cut_in_header n cut (ground (arith, short)))
    | inr long ↦ elim (Bool-cases (ltb n (header_size + length index))) [
      | inl inside ↦
          rw (long, inside) (cut_in_index n cut (ground (arith, long)) (ground (arith, inside)))
      | inr behind ↦ rw (long, behind) (cut_in_data n cut (ground (arith, behind)))
    ]
  ]
