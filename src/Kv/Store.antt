-- ===== src/Kv/Store.antt =====
-- crates/kv-store/src/store.rs: the read-only store over a mapped snapshot file.
pub mod Loaded
pub mod Lookup
pub mod Opening
pub mod Iteration
pub mod Contents
pub mod Accepted
pub mod Sample
pub mod Truncated
use lowlatency.Common.{
  ℕ, zero, suc, ◌+◌, ◌%◌, Bytes, Text, List, [], ◌∷◌, ◌++◌, length, drop, Option, some, none, Bool,
  true, false, leb, ◌==◌, if◌then◌else◌, add64, mul64, Outcome, ok, guard, map_err, index_range,
  ◌>>=◌, ◌>>◌,
}
use lowlatency.Common.Format.{codes, decimal, debug_struct}
use lowlatency.Kv.Error.{Result, io, invalid_mphf, file_too_small}
use lowlatency.Kv.Header
use lowlatency.Kv.Header.{header_size}
use lowlatency.Kv.Record
use lowlatency.Kv.Record.{Record, record_size, key_equals}
use lowlatency.Kv.GoFunction.{GoFunction}
use lowlatency.Kv.Mphf
use lowlatency.Kv.Mphf.{Mphf}

abbrev pub FilePath : Type 0
FilePath = Text

-- What opening, measuring and mapping a file gives: its bytes, or an I/O error.
abbrev pub Disk : Type 0
Disk = FilePath → Outcome Text Bytes

pub record VersionInfo : Type 0 where
  pub build_timestamp : ℕ
  pub record_count : ℕ
  pub file_size : ℕ

pub record KvStore (go : GoFunction) : Type 0 where
  pub mmap : Bytes
  pub mphf : Mphf go
  pub record_count : ℕ
  pub data_offset : ℕ
  pub version_info : VersionInfo

count_mismatch : ℕ → ℕ → Text
count_mismatch keys records =
    codes "MPHF key count "
    ++ (decimal keys ++ (codes " doesn't match header record count " ++ decimal records))

page_size : ℕ
page_size = 4096

-- The sum of the first byte of each page, with one round for each page.
touch_pages : ℕ → Bytes → ℕ → ℕ
touch_pages rounds [] sum = sum
touch_pages zero (b ∷ bytes) sum = sum
touch_pages (suc rounds) (b ∷ bytes) sum =
    touch_pages rounds (drop page_size (b ∷ bytes)) ((sum + b) % 256)

-- The value of the record in a slot, if its key is the one that was asked for.
matching : Bytes → Record → Option Bytes
matching key r = if key_equals r key then some r.value else none

unfoldable pub is_some : Option Bytes → Bool
is_some none = false
is_some (some value) = true

module _ (go : GoFunction) where
  -- `open`: the file's bytes are those that the system calls deliver.
  unfoldable pub open_bytes : Bytes → Result (KvStore go)
  unfolding count_mismatch
  open_bytes mmap = do
    let file_size = length mmap
    header ← Header.from_bytes mmap
    let mphf_end = add64 header_size header.mphf_size
    index ← index_range header_size mphf_end mmap
    mphf ← Mphf.deserialize go index
    guard (Mphf.len go mphf == header.record_count)
        (invalid_mphf (count_mismatch (Mphf.len go mphf) header.record_count))
    let expected_size = add64 header.data_offset (mul64 header.record_count record_size)
    guard (leb expected_size file_size) (file_too_small file_size expected_size)
    ok (record {
      mmap = mmap;
      mphf = mphf;
      record_count = header.record_count;
      data_offset = header.data_offset;
      version_info = record {
        build_timestamp = header.build_timestamp;
        record_count = header.record_count;
        file_size = file_size;
      };
    })

  unfoldable pub open_store : Disk → FilePath → Result (KvStore go)
  open_store disk path = do mmap ← map_err io (disk path); open_bytes mmap

  unfoldable pub get_record {ℓ} : {E : Type ℓ} → KvStore go → ℕ → Outcome E Record
  get_record s slot = do
    let offset = add64 s.data_offset (mul64 slot record_size)
    bytes ← index_range offset (add64 offset record_size) s.mmap
    Record.from_bytes bytes

  get_at {ℓ} : {E : Type ℓ} → KvStore go → Bytes → Option ℕ → Outcome E (Option Bytes)
  unfolding matching
  get_at s key none = ok none
  get_at s key (some slot) =
      if leb s.record_count slot then ok none else do r ← get_record s slot; ok (matching key r)

  unfoldable pub get {ℓ} : {E : Type ℓ} → KvStore go → Bytes → Outcome E (Option Bytes)
  unfolding get_at
  get s key = do slot ← Mphf.get go s.mphf key; get_at s key slot

  unfoldable pub contains {ℓ} : {E : Type ℓ} → KvStore go → Bytes → Outcome E Bool
  unfolding is_some
  contains s key = do found ← get s key; ok (is_some found)

  unfoldable pub len : KvStore go → ℕ
  len s = s.record_count

  unfoldable pub is_empty : KvStore go → Bool
  is_empty s = s.record_count == 0

  unfoldable pub version_info : KvStore go → VersionInfo
  version_info s = s.version_info

  -- Reads a byte of each page; the sum is thrown away.
  unfoldable pub preload : KvStore go → Result ℕ
  unfolding touch_pages page_size
  preload s = let sum = touch_pages (length s.mmap) s.mmap 0 in ok (length s.mmap)

  -- The slots from `slot` on, with the count of those that are left.
  unfoldable pub iter_from {ℓ} :
      {E : Type ℓ} → KvStore go → ℕ → ℕ → Outcome E (List (Bytes × Bytes))
  iter_from s zero slot = ok []
  iter_from s (suc left) slot = do
    r ← get_record s slot
    rest ← iter_from s left (slot + 1)
    ok ((r.key, r.value) ∷ rest)

  unfoldable pub iter {ℓ} : {E : Type ℓ} → KvStore go → Outcome E (List (Bytes × Bytes))
  iter s = iter_from s s.record_count 0

  unfoldable pub fmt : KvStore go → Text
  fmt s = debug_struct (codes "KvStore") (
      (codes "record_count", decimal s.record_count)
      ∷ ((codes "file_size", decimal (length s.mmap))
          ∷ ((codes "data_offset", decimal s.data_offset) ∷ [])))
