-- ===== src/Kv/Header/Bounds.antt =====
-- The data offset of a new header, and what `validate` accepts.
use lowlatency.Common.{
  ℕ, ◌+◌, ◌-◌, ◌*◌, ◌/◌, ◌%◌, ◌^◌, ◌≤◌, ◌<◌, ◌≡◌, ◌↔◌, ◌≢◌, arith, add64, length-replicate, ok,
  IsU64, Bytes, panic,
}
use lowlatency.Common.Bits.{bit_and_page}
use lowlatency.Kv.Header.{
  Header, header_size, magic_number, format_version, max_records, align_to_4k, new, validate,
  from_bytes,
}
use lowlatency.Kv.Header.Layout.{IsHeader}

align_to_4k-div : (v : ℕ) → align_to_4k v ≡ add64 v 4095 / 4096 * 4096
unfolding align_to_4k
align_to_4k-div v = bit_and_page (add64 v 4095) (omega arith)

-- Below the last page of the address space `align_to_4k` rounds up to the next multiple of 4096.
pub align_to_4k_bounds :
    (v : ℕ)
    → v ≤ 2 ^ 64 - 4096
    → (v ≤ align_to_4k v) × (align_to_4k v < v + 4096) × (align_to_4k v % 4096 ≡ 0)
align_to_4k_bounds v h = rw align_to_4k-div (omega arith)

-- Past it the sum wraps, and the result is 0.
pub align_to_4k_wraps : (v : ℕ) → 2 ^ 64 - 4096 < v → IsU64 v → align_to_4k v ≡ 0
align_to_4k_wraps v h k = rw align_to_4k-div (omega arith)

-- `validate` accepts exactly the headers with the magic number, version 1 and at most 10^10
-- records.
pub validate_iff :
    (h : Header)
    → (validate h ≡ ok tt)
      ↔ ((h.magic ≡ magic_number) × (h.version ≡ format_version) × (h.record_count ≤ max_records))
unfolding validate
validate_iff h = (λ e. ground arith, λ e. ground arith)

-- Whatever the bytes, a header is parsed or an error is returned: no byte string makes the parser
-- panic.
pub from_bytes-ne-panic : (bytes : Bytes) → from_bytes bytes ≢ panic
unfolding from_bytes validate
from_bytes-ne-panic bytes e = ground arith

-- A new header is one that can be written, and the index fits between header and data.
pub new-IsHeader :
    (record_count mphf_size timestamp : ℕ)
    → IsU64 record_count
    → IsU64 timestamp
    → mphf_size ≤ 2 ^ 63
    → IsHeader (new record_count mphf_size timestamp)
unfolding new
new-IsHeader record_count mphf_size timestamp count stamp size = record {
  magic_IsU64 = omega arith;
  version_IsU64 = omega arith;
  record_count_IsU64 = count;
  mphf_size_IsU64 = omega arith;
  data_offset_IsU64 = omega (arith, align_to_4k_bounds (add64 header_size mphf_size));
  build_timestamp_IsU64 = stamp;
  length-checksum = length-replicate 32 0;
}

-- The data section of a new header begins behind the index, less than a page later.
pub data_offset-new :
    (record_count mphf_size timestamp : ℕ)
    → mphf_size ≤ 2 ^ 63
    → (header_size + mphf_size ≤ (new record_count mphf_size timestamp).data_offset)
      × ((new record_count mphf_size timestamp).data_offset < header_size + mphf_size + 4096)
      × ((new record_count mphf_size timestamp).data_offset % 4096 ≡ 0)
unfolding new
data_offset-new record_count mphf_size timestamp size =
    omega (arith, align_to_4k_bounds (add64 header_size mphf_size))
