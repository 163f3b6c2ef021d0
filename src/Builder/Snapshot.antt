-- ===== src/Builder/Snapshot.antt =====
-- crates/snapshot-builder/src/builder.rs: the file that the builder writes.
pub mod Records
pub mod Layout
pub mod Built
pub mod Order
pub mod RoundTrip
pub mod Failures
use lowlatency.Common.{
  ℕ, ◌+◌, ◌-◌, Bytes, Text, List, [], ◌∷◌, ◌++◌, length, take, replicate, Option, some, none, Bool,
  true, ltb, ◌==◌, if◌then◌else◌, add64, mul64, Outcome, ok, err, panic, map_err, unwrap,
  copy_from_slice, index_range,
}
use lowlatency.Common.Action.{Action, lift, ◌>>=◌, ◌>>◌}
use lowlatency.Kv.Error.{Error}
use lowlatency.Kv.Header
use lowlatency.Kv.Header.{Header, header_size}
use lowlatency.Kv.Record.{key_size, record_size}
use lowlatency.Kv.GoFunction.{GoFunction}
use lowlatency.Kv.Mphf
use lowlatency.Kv.Mphf.{Mphf}

pub record SnapshotBuilder : Type 0 where
  pub keys : List Bytes
  pub values : List Bytes

unfoldable pub new : SnapshotBuilder
new = record { keys = []; values = [] }

-- The capacity is only reserved memory.
unfoldable pub with_capacity : ℕ → SnapshotBuilder
with_capacity capacity = record { keys = []; values = [] }

unfoldable pub add_record : SnapshotBuilder → Bytes → Bytes → SnapshotBuilder
add_record b key value = record b { keys = b.keys ++ (key ∷ []); values = b.values ++ (value ∷ []) }

unfoldable pub len : SnapshotBuilder → ℕ
len b = length b.keys

unfoldable pub is_empty : SnapshotBuilder → Bool
is_empty b = length b.keys == 0

-- An error of anyhow: its context, and the error or the text below it.
pub data BuildError : Type 0 where
  index_not_built : Error → BuildError
  index_not_serialized : Error → BuildError
  file_not_created : Text → BuildError
  size_not_set : Text → BuildError
  file_not_mapped : Text → BuildError
  map_not_flushed : Text → BuildError

-- How the system calls of one run end: `none` for success.
pub record Calls : Type 0 where
  pub create : Option Text
  pub set_len : Option Text
  pub map_mut : Option Text
  pub flush : Option Text

-- The file at the output path. The map is shared: what is written to it is in the file.
pub record Output : Type 0 where
  pub exists : Bool
  pub contents : Bytes

abbrev pub Build : Type 0 → Type 0
Build A = Action Output BuildError A

call : (Text → BuildError) → Option Text → (Output → Output) → Build Unit
call failure none effect o = (ok tt, effect o)
call failure (some e) effect o = (err (failure e), o)

-- Opening truncates; a longer file is filled up with zeros.
truncated : Output → Output
truncated o = record { exists = true; contents = [] }

unfoldable pub resize : ℕ → Bytes → Bytes
resize n bytes = take n bytes ++ replicate (n - length bytes) 0

resized : ℕ → Output → Output
unfolding resize
resized n o = record o { contents = resize n o.contents }

-- `mmap[a..b].copy_from_slice(src)`; a panic leaves the map as it was.
store_range : Outcome BuildError Bytes → Build Unit
store_range (ok bytes) o = (ok tt, record o { contents = bytes })
store_range (err e) o = (err e, o)
store_range panic o = (panic, o)

unfoldable pub write_range : ℕ → ℕ → Bytes → Build Unit
unfolding store_range
write_range a b src o = store_range (copy_from_slice a b src o.contents) o

unfoldable pub read_range : ℕ → ℕ → Build Bytes
read_range a b o = (index_range a b o.contents, o)

current_len : Build ℕ
current_len o = (ok (length o.contents), o)

skip : Build Unit
skip o = (ok tt, o)

-- Zeros between the index and the data section.
pad : ℕ → ℕ → Build Unit
unfolding skip write_range
pad index_end data_offset =
    if ltb index_end data_offset
    then write_range index_end data_offset (replicate (data_offset - index_end) 0)
    else skip

module _ (go : GoFunction) where
  -- One round of the loop: the record of a key goes to the key's slot.
  unfoldable pub write_record : Mphf go → ℕ → Bytes → Bytes → Build Unit
  unfolding write_range
  write_record mphf data_offset key value = do
    found ← lift (Mphf.get go mphf key)
    slot ← lift (unwrap found)
    let offset = add64 data_offset (mul64 slot record_size)
    write_range offset (add64 offset key_size) key
    write_range (add64 offset key_size) (add64 offset record_size) value

  -- `for (key, value) in self.keys.iter().zip(self.values.iter())`
  unfoldable pub write_records : Mphf go → ℕ → List Bytes → List Bytes → Build Unit
  unfolding write_record
  write_records mphf data_offset (key ∷ keys) (value ∷ values) = do
    write_record mphf data_offset key value
    write_records mphf data_offset keys values
  write_records mphf data_offset keys values = λ o. (ok tt, o)

  -- The part of `build` from the creation of the file on. `sha256` is the digest of `sha2`.
  unfoldable pub write_file :
      (Bytes → Bytes) → Calls → Header → Mphf go → Bytes → SnapshotBuilder → Build Unit
  unfolding call truncated resized current_len pad write_records read_range
  write_file sha256 calls header mphf mphf_bytes b = do
    let data_offset = header.data_offset
    let index_end = add64 header_size (length mphf_bytes)
    let total_size = add64 data_offset (mul64 (length b.keys) record_size)
    call file_not_created calls.create truncated
    call size_not_set calls.set_len (resized total_size)
    call file_not_mapped calls.map_mut (λ o. o)
    write_range header_size index_end mphf_bytes
    pad index_end data_offset
    write_records mphf data_offset b.keys b.values
    end ← current_len
    data_section ← read_range data_offset end
    let final_header = record header { checksum = sha256 data_section }
    write_range 0 header_size (Header.to_bytes final_header)
    call map_not_flushed calls.flush (λ o. o)

  -- `timestamp` is what the clock shows.
  unfoldable pub build : (Bytes → Bytes) → Calls → ℕ → SnapshotBuilder → Build Unit
  unfolding write_file
  build sha256 calls timestamp b = do
    let record_count = length b.keys
    mphf ← lift (map_err index_not_built (Mphf.build go b.keys))
    mphf_bytes ← lift (map_err index_not_serialized (Mphf.serialize go mphf))
    write_file sha256 calls (Header.new record_count (length mphf_bytes) timestamp) mphf mphf_bytes
        b
