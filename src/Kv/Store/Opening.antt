-- ===== src/Kv/Store/Opening.antt =====
-- Opening a well-formed snapshot file, and what opening does to files that are not.
use lowlatency.Common.{
  ◌+◌, ◌-◌, ◌*◌, ◌^◌, ◌≤◌, ◌<◌, ◌≡◌, ◌⊎◌, inl, inr, refl, sym, ◌∙◌, arith, Bytes, List, length,
  slice, true, ◌==◌, eq→==, le→leb, add64, mul64, ok, panic, index_range, index_range_lem,
}
use lowlatency.Kv.Error.{Error}
use lowlatency.Kv.Header
use lowlatency.Kv.Header.{Header, header_size, validate}
use lowlatency.Kv.Header.Layout.{IsHeader, from_bytes-to_bytes}
use lowlatency.Kv.Record.{record_size}
use lowlatency.Kv.GoFunction.{GoFunction, IsPerfect, Answers}
use lowlatency.Kv.Mphf
use lowlatency.Kv.Mphf.{Mphf}
use lowlatency.Kv.Store.{KvStore, open_bytes}
use lowlatency.Kv.Store.Loaded.{Placed, IsLoaded}

-- A complete snapshot file: the header, the index behind it, and the records of the table, each in
-- the slot of its key.
pub record IsSnapshot (go : GoFunction) (bytes : Bytes) (h : Header) (index : Bytes) (m : Mphf go)
    (keys values : List Bytes) : Type 0 where
  pub header_sized : IsHeader h
  pub header_valid : validate h ≡ ok tt
  pub header_there : slice 0 header_size bytes ≡ Header.to_bytes h
  pub index_size : h.mphf_size ≡ length index
  pub index_there : slice header_size (length index) bytes ≡ index
  pub index_read : Mphf.deserialize go index ≡ ok m
  pub indexed : m.key_count ≡ length keys
  pub counted : h.record_count ≡ length keys
  pub perfect : IsPerfect (Mphf.slot_of go m) (length keys) keys
  pub total : Answers go m.function
  pub placed : Placed (Mphf.slot_of go m) h.data_offset bytes keys values
  pub index_before_data : header_size + length index ≤ h.data_offset
  pub data_inside : h.data_offset + length keys * record_size ≤ length bytes
  pub addressable : length bytes < 2 ^ 64

module _ (go : GoFunction) (bytes : Bytes) (h : Header) (index : Bytes) (m : Mphf go)
    (keys values : List Bytes) (snap : IsSnapshot go bytes h index m keys values) where
  -- The store that `open` returns for the file.
  opened : KvStore go
  opened = record {
    mmap = bytes;
    mphf = m;
    record_count = h.record_count;
    data_offset = h.data_offset;
    version_info = record {
      build_timestamp = h.build_timestamp;
      record_count = h.record_count;
      file_size = length bytes;
    };
  }

  pub header_read : Header.from_bytes bytes ≡ ok h
  header_read =
      from_bytes-to_bytes h bytes snap.header_sized
        (omega (arith, snap.index_before_data, snap.data_inside)) snap.header_there
      ∙ rw snap.header_valid

  index_taken : index_range {E = Error} header_size (add64 header_size h.mphf_size) bytes ≡ ok index
  index_taken =
      let end : add64 header_size h.mphf_size ≡ header_size + length index =
        omega
          (arith, snap.index_size, snap.index_before_data, snap.data_inside, snap.addressable) in
      let sized : header_size + length index - header_size ≡ length index = omega arith in
      rw (
        end,
        index_range_lem {E = Error} header_size (header_size + length index) bytes (omega arith)
            (omega (arith, snap.index_before_data, snap.data_inside)),
        sized,
        snap.index_there,
      )

  opens : open_bytes go bytes ≡ ok opened
  unfolding open_bytes Mphf.len opened
  opens =
      let counts : (m.key_count == h.record_count) ≡ true =
        eq→== _ _ (snap.indexed ∙ sym snap.counted) in
      let end : add64 h.data_offset (mul64 h.record_count record_size)
          ≡ h.data_offset + length keys * record_size =
        omega (arith, snap.counted, snap.data_inside, snap.addressable) in
      rw (header_read, index_taken, snap.index_read, counts, end, le→leb _ _ snap.data_inside)

  opened-IsLoaded : IsLoaded go opened keys values
  unfolding opened
  opened-IsLoaded = record {
    counted = snap.counted;
    indexed = snap.indexed;
    perfect = snap.perfect;
    total = snap.total;
    placed = snap.placed;
    mapped = snap.data_inside;
    addressable = snap.addressable;
  }

  -- A complete snapshot opens, to a store that holds its table and reports the file's metadata.
  pub open_bytes-IsLoaded :
      (s : KvStore go) × (open_bytes go bytes ≡ ok s)
      × IsLoaded go s keys values
      × (s.mmap ≡ bytes)
      × (s.version_info ≡ record {
        build_timestamp = h.build_timestamp;
        record_count = h.record_count;
        file_size = length bytes;
      })
  open_bytes-IsLoaded =
      (opened, opens, opened-IsLoaded, unfold opened in refl, unfold opened in refl)

-- A header whose index would end beyond the file, or beyond the address space, makes `open` panic.
-- The documentation of `open` lists such files under the errors that it returns.
pub open_bytes_panics :
    (go : GoFunction) (bytes : Bytes) (h : Header)
    → Header.from_bytes bytes ≡ ok h
    → (length bytes < add64 header_size h.mphf_size) ⊎ (add64 header_size h.mphf_size < header_size)
    → open_bytes go bytes ≡ panic
unfolding open_bytes
open_bytes_panics go bytes h parsed (inl far) = rw parsed (ground arith)
open_bytes_panics go bytes h parsed (inr wrapped) = rw parsed (ground arith)
