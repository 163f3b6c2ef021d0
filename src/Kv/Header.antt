-- ===== src/Kv/Header.antt =====
-- crates/kv-store/src/header.rs: the header at the start of a snapshot file.
use Prim.Native.Nat.{bit_and}
use lowlatency.Common.{
  ℕ, ◌-◌, ◌^◌, length, replicate, slice, splice, to_le_bytes, from_le_bytes, add64, Bytes, ltb, leb,
  ◌==◌, if◌then◌else◌, bytes_eq, ok, err, guard, ◌>>=◌, ◌>>◌,
}
use lowlatency.Common.Format.{hex_encode}
use lowlatency.Kv.Error.{
  Result, invalid_magic, unsupported_version, checksum_mismatch, file_too_small, too_many_records,
}
pub mod Layout
pub mod Bounds

abbrev pub header_size : ℕ
header_size = 4096

abbrev pub checksum_offset : ℕ
checksum_offset = 64

abbrev pub checksum_size : ℕ
checksum_size = 32

abbrev pub format_version : ℕ
format_version = 1

abbrev pub magic_number : ℕ
magic_number = 0x4B56535331303030

abbrev pub max_records : ℕ
max_records = 10_000_000_000

pub record Header : Type 0 where
  pub magic : ℕ
  pub version : ℕ
  pub record_count : ℕ
  pub mphf_size : ℕ
  pub data_offset : ℕ
  pub build_timestamp : ℕ
  pub checksum : Bytes

-- `(value + 4095) & !4095`
unfoldable pub align_to_4k : ℕ → ℕ
align_to_4k value = bit_and (add64 value 4095) (2 ^ 64 - 4096)

unfoldable pub new : ℕ → ℕ → ℕ → Header
new record_count mphf_size build_timestamp = record {
  magic = magic_number;
  version = format_version;
  record_count = record_count;
  mphf_size = mphf_size;
  data_offset = align_to_4k (add64 header_size mphf_size);
  build_timestamp = build_timestamp;
  checksum = replicate checksum_size 0;
}

unfoldable pub validate : Header → Result Unit
validate h = do
  guard (h.magic == magic_number) (invalid_magic magic_number h.magic)
  guard (h.version == format_version) (unsupported_version h.version)
  guard (leb h.record_count max_records) (too_many_records h.record_count max_records)

-- `u64::from_le_bytes(bytes[o..o + 8].try_into().unwrap())`, of bytes that are known to be there
unfoldable pub read_u64 : ℕ → Bytes → ℕ
read_u64 o bytes = from_le_bytes (slice o 8 bytes)

-- The fields as they stand in the file, not yet validated.
unfoldable pub parse : Bytes → Header
parse bytes = record {
  magic = read_u64 0 bytes;
  version = read_u64 8 bytes;
  record_count = read_u64 16 bytes;
  mphf_size = read_u64 24 bytes;
  data_offset = read_u64 32 bytes;
  build_timestamp = read_u64 40 bytes;
  checksum = slice checksum_offset checksum_size bytes;
}

unfoldable pub from_bytes : Bytes → Result Header
from_bytes bytes =
    if ltb (length bytes) header_size
    then err (file_too_small (length bytes) header_size)
    else do let header = parse bytes; validate header; ok header

-- A write of a u64 at a fixed offset of the array.
unfoldable pub put_u64 : ℕ → ℕ → Bytes → Bytes
put_u64 o v bytes = splice o (to_le_bytes 8 v) bytes

unfoldable pub to_bytes : Header → Bytes
to_bytes h =
    let zeros = replicate header_size 0 in
    let fields = put_u64 40 h.build_timestamp (
      put_u64 32 h.data_offset (
        put_u64 24 h.mphf_size
          (put_u64 16 h.record_count (put_u64 8 h.version (put_u64 0 h.magic zeros))))) in
    splice checksum_offset h.checksum fields

-- `sha256` is the digest of the `sha2` crate.
module _ (sha256 : Bytes → Bytes) where
  unfoldable pub compute_checksum : Bytes → Bytes
  compute_checksum data_section = sha256 data_section

  unfoldable pub verify_checksum : Header → Bytes → Result Unit
  unfolding compute_checksum
  verify_checksum h data_section =
      let computed = compute_checksum data_section in
      guard (bytes_eq computed h.checksum)
        (checksum_mismatch (hex_encode h.checksum) (hex_encode computed))
