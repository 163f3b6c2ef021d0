-- ===== src/Kv/Header/Layout.antt =====
-- What `to_bytes` writes is what `from_bytes` reads.
use lowlatency.Common.{
  ℕ, ◌+◌, ◌≤◌, ◌≡◌, ap, ◌∙◌, inl, ◌⊎◌, from_le_bytes, sym, arith, length, replicate, slice, splice,
  to_le_bytes, length-replicate, length-splice, slice-splice_self, slice-splice_ne, slice-slice,
  length-to_le_bytes, from_le_bytes-to_le_bytes, IsU64, Bytes, le→ltb_false, ok, ◌>>◌,
}
use lowlatency.Kv.Header.{
  Header, header_size, checksum_size, checksum_offset, read_u64, parse, from_bytes, put_u64,
  to_bytes, validate,
}

-- Every field is a u64, and the checksum has its 32 bytes.
pub record IsHeader (h : Header) : Type 0 where
  pub magic_IsU64 : IsU64 h.magic
  pub version_IsU64 : IsU64 h.version
  pub record_count_IsU64 : IsU64 h.record_count
  pub mphf_size_IsU64 : IsU64 h.mphf_size
  pub data_offset_IsU64 : IsU64 h.data_offset
  pub build_timestamp_IsU64 : IsU64 h.build_timestamp
  pub length-checksum : length h.checksum ≡ checksum_size

length-put_u64 : (o v : ℕ) (bytes : Bytes) → length (put_u64 o v bytes) ≡ length bytes
unfolding put_u64
length-put_u64 o v bytes = length-splice o (to_le_bytes 8 v) bytes

read_u64-put_u64_self :
    (o v : ℕ) (bytes : Bytes) → o + 8 ≤ length bytes → IsU64 v → read_u64 o (put_u64 o v bytes) ≡ v
unfolding put_u64 read_u64
read_u64-put_u64_self o v bytes room fits = rw written (from_le_bytes-to_le_bytes 8 v (omega arith))
  where
    written : slice o 8 (splice o (to_le_bytes 8 v) bytes) ≡ to_le_bytes 8 v
    written =
        rw length-to_le_bytes at
          (slice-splice_self o (to_le_bytes 8 v) bytes (omega (arith, length-to_le_bytes 8 v)))

-- A u64 is read past the write of another field.
skip_u64 :
    (o p v : ℕ) (bytes : Bytes)
    → (o + 8 ≤ p) ⊎ (p + 8 ≤ o)
    → read_u64 o (put_u64 p v bytes) ≡ read_u64 o bytes
unfolding put_u64 read_u64
skip_u64 o p v bytes apart =
    ap from_le_bytes
      (slice-splice_ne o 8 p (to_le_bytes 8 v) bytes (omega (arith, length-to_le_bytes 8 v)))

-- The fields stand before the checksum.
skip_checksum :
    (o : ℕ) (src bytes : Bytes) → o + 8 ≤ 64 → read_u64 o (splice 64 src bytes) ≡ read_u64 o bytes
unfolding read_u64
skip_checksum o src bytes before = ap from_le_bytes (slice-splice_ne o 8 64 src bytes (inl before))

length-zeros : length {A = ℕ} (replicate header_size 0) ≡ header_size
length-zeros = length-replicate header_size 0

pub length-to_bytes : (h : Header) → length (to_bytes h) ≡ header_size
unfolding to_bytes
length-to_bytes h = simp (length-splice, length-put_u64, length-zeros)

ruleset lengths = (arith, length-put_u64, length-zeros)

slice-splice_checksum :
    (src bytes : Bytes)
    → length src ≡ checksum_size
    → checksum_offset + checksum_size ≤ length bytes
    → slice checksum_offset checksum_size (splice checksum_offset src bytes) ≡ src
slice-splice_checksum src bytes sized room =
    rw sized at (slice-splice_self checksum_offset src bytes (omega arith))

-- Each field is read back from the bytes of the whole header.
module _ (h : Header) (fits : IsHeader h) where
  read-magic : read_u64 0 (to_bytes h) ≡ h.magic
  unfolding to_bytes
  read-magic =
      skip_checksum 0 _ _ (omega arith)
      ∙ skip_u64 0 40 _ _ (omega arith)
      ∙ skip_u64 0 32 _ _ (omega arith)
      ∙ skip_u64 0 24 _ _ (omega arith)
      ∙ skip_u64 0 16 _ _ (omega arith)
      ∙ skip_u64 0 8 _ _ (omega arith)
      ∙ read_u64-put_u64_self 0 _ _ (omega lengths) fits.magic_IsU64

  read-version : read_u64 8 (to_bytes h) ≡ h.version
  unfolding to_bytes
  read-version =
      skip_checksum 8 _ _ (omega arith)
      ∙ skip_u64 8 40 _ _ (omega arith)
      ∙ skip_u64 8 32 _ _ (omega arith)
      ∙ skip_u64 8 24 _ _ (omega arith)
      ∙ skip_u64 8 16 _ _ (omega arith)
      ∙ read_u64-put_u64_self 8 _ _ (omega lengths) fits.version_IsU64

  read-record_count : read_u64 16 (to_bytes h) ≡ h.record_count
  unfolding to_bytes
  read-record_count =
      skip_checksum 16 _ _ (omega arith)
      ∙ skip_u64 16 40 _ _ (omega arith)
      ∙ skip_u64 16 32 _ _ (omega arith)
      ∙ skip_u64 16 24 _ _ (omega arith)
      ∙ read_u64-put_u64_self 16 _ _ (omega lengths) fits.record_count_IsU64

  read-mphf_size : read_u64 24 (to_bytes h) ≡ h.mphf_size
  unfolding to_bytes
  read-mphf_size =
      skip_checksum 24 _ _ (omega arith)
      ∙ skip_u64 24 40 _ _ (omega arith)
      ∙ skip_u64 24 32 _ _ (omega arith)
      ∙ read_u64-put_u64_self 24 _ _ (omega lengths) fits.mphf_size_IsU64

  read-data_offset : read_u64 32 (to_bytes h) ≡ h.data_offset
  unfolding to_bytes
  read-data_offset =
      skip_checksum 32 _ _ (omega arith)
      ∙ skip_u64 32 40 _ _ (omega arith)
      ∙ read_u64-put_u64_self 32 _ _ (omega lengths) fits.data_offset_IsU64

  read-build_timestamp : read_u64 40 (to_bytes h) ≡ h.build_timestamp
  unfolding to_bytes
  read-build_timestamp =
      skip_checksum 40 _ _ (omega arith)
      ∙ read_u64-put_u64_self 40 _ _ (omega lengths) fits.build_timestamp_IsU64

  read-checksum : slice checksum_offset checksum_size (to_bytes h) ≡ h.checksum
  unfolding to_bytes
  read-checksum = slice-splice_checksum h.checksum _ fits.length-checksum (omega lengths)

  parse-to_bytes : parse (to_bytes h) ≡ h
  unfolding parse
  parse-to_bytes = λ i. record {
    magic = read-magic i;
    version = read-version i;
    record_count = read-record_count i;
    mphf_size = read-mphf_size i;
    data_offset = read-data_offset i;
    build_timestamp = read-build_timestamp i;
    checksum = read-checksum i;
  }

module _ (bytes : Bytes) where
  read_prefix : (o : ℕ) → o + 8 ≤ 4096 → read_u64 o (slice 0 4096 bytes) ≡ read_u64 o bytes
  unfolding read_u64
  read_prefix o h = ap from_le_bytes (slice-slice o 8 0 4096 o bytes h (omega arith))

  parse_prefix : parse (slice 0 4096 bytes) ≡ parse bytes
  unfolding parse
  parse_prefix = λ i. record {
    magic = read_prefix 0 (omega arith) i;
    version = read_prefix 8 (omega arith) i;
    record_count = read_prefix 16 (omega arith) i;
    mphf_size = read_prefix 24 (omega arith) i;
    data_offset = read_prefix 32 (omega arith) i;
    build_timestamp = read_prefix 40 (omega arith) i;
    checksum =
        slice-slice checksum_offset checksum_size 0 4096 checksum_offset bytes (omega arith)
          (omega arith) i;
  }

-- A file that begins with the bytes of a header, each of whose fields is a u64 and whose checksum
-- has 32 bytes, parses to that header if it validates, and to the error of `validate` if not.
pub from_bytes-to_bytes :
    (h : Header) (bytes : Bytes)
    → IsHeader h
    → header_size ≤ length bytes
    → slice 0 header_size bytes ≡ to_bytes h
    → from_bytes bytes ≡ (validate h >> ok h)
unfolding from_bytes
from_bytes-to_bytes h bytes fits long begins = rw (le→ltb_false _ _ long, parsed)
  where
    parsed : parse bytes ≡ h
    parsed = sym (parse_prefix bytes) ∙ ap parse begins ∙ parse-to_bytes h fits
