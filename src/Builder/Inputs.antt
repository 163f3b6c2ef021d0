-- ===== src/Builder/Inputs.antt =====
-- crates/snapshot-builder/src/main.rs: how the commands turn their input into records.
pub mod Binary
pub mod Csv
pub mod Random
pub mod Stored
pub mod Refused
use lowlatency.Common.{
  ◌≡◌, refl, ap, ℕ, zero, suc, ◌+◌, ◌/◌, ◌%◌, Bytes, Text, List, [], ◌∷◌, ◌++◌, length, take,
  replicate, splice, Option, some, none, Bool, ◌==◌, min, if◌then◌else◌, add64, mul64, to_le_bytes,
  Outcome, ok, err, panic, map_err, index_range, ◌>>=◌, ◌>>◌,
}
use lowlatency.Common.Action.{Action}
use lowlatency.Common.Format.{codes, decimal}
use lowlatency.Kv.Record.{key_size, value_size, record_size}
use lowlatency.Kv.GoFunction.{GoFunction}
use lowlatency.Builder.Snapshot
use lowlatency.Builder.Snapshot.{SnapshotBuilder, BuildError, Calls, Output, build, add_record}

-- Lists of records that grow at their end.
pub append_nil : (xs : List Bytes) → xs ++ [] ≡ xs
append_nil [] = refl
append_nil (x ∷ xs) = ap (λ (t : List Bytes). x ∷ t) (append_nil xs)

pub append_one :
    (xs : List Bytes) (y : Bytes) (ys : List Bytes) → (xs ++ (y ∷ [])) ++ ys ≡ xs ++ (y ∷ ys)
append_one [] y ys = refl
append_one (x ∷ xs) y ys = ap (λ (t : List Bytes). x ∷ t) (append_one xs y ys)

-- An error of a command: a failed input, a message, or an error of `build`.
pub data InputError : Type 0 where
  input_not_opened : Text → InputError
  row_not_parsed : Text → InputError
  message : Text → InputError
  not_built : BuildError → InputError

-- The bytes of a string over the zeros of a fixed array; what does not fit is cut off.
fixed : ℕ → Text → Bytes
fixed size s = splice 0 (take (min (length s) size) s) (replicate size 0)

unfoldable pub string_to_key : Text → Bytes
unfolding fixed
string_to_key s = fixed key_size s

unfoldable pub string_to_value : Text → Bytes
unfolding fixed
string_to_value s = fixed value_size s

-- `record.get(i)`
unfoldable pub column : ℕ → List Text → Option Text
column i [] = none
column zero (field ∷ fields) = some field
column (suc i) (field ∷ fields) = column i fields

present : Text → Option Text → Outcome InputError Text
present missing none = err (message missing)
present missing (some field) = ok field

-- The rows are what the crate `csv` yields: a row of fields, or an error.
unfoldable pub csv_records :
    ℕ → ℕ → List (Outcome Text (List Text)) → SnapshotBuilder → Outcome InputError SnapshotBuilder
unfolding column present
csv_records key_column value_column [] b = ok b
csv_records key_column value_column (result ∷ rows) b = do
  row ← map_err row_not_parsed result
  key_str ← present (codes "Key column not found") (column key_column row)
  value_str ← present (codes "Value column not found") (column value_column row)
  csv_records key_column value_column rows
      (add_record b (string_to_key key_str) (string_to_value value_str))

-- The records from the `i`-th on, with the count of those that are left.
unfoldable pub binary_records : Bytes → ℕ → ℕ → SnapshotBuilder → Outcome InputError SnapshotBuilder
binary_records mmap zero i b = ok b
binary_records mmap (suc left) i b = do
  let offset = mul64 i record_size
  key ← index_range offset (add64 offset key_size) mmap
  value ← index_range (add64 offset key_size) (add64 offset record_size) mmap
  binary_records mmap left (i + 1) (add_record b key value)

unfoldable pub size_message : ℕ → Text
size_message size =
    codes "Binary file size "
    ++ (decimal size ++ (codes " is not a multiple of record size " ++ decimal record_size))

unfoldable pub records_of_binary : Bytes → Outcome InputError SnapshotBuilder
unfolding size_message binary_records Snapshot.new
records_of_binary mmap =
    if length mmap % record_size == 0
    then binary_records mmap (length mmap / record_size) 0 Snapshot.new
    else err (message (size_message (length mmap)))

-- `fills i` is what the random generator fills in for the `i`-th record: 56 bytes of key, and the
-- value.
unfoldable pub random_key : (ℕ → Bytes × Bytes) → ℕ → Bytes
random_key fills i = splice 8 (fills i).0 (splice 0 (to_le_bytes 8 i) (replicate key_size 0))

unfoldable pub random_value : (ℕ → Bytes × Bytes) → ℕ → Bytes
random_value fills i = splice 0 (fills i).1 (replicate value_size 0)

unfoldable pub random_records : (ℕ → Bytes × Bytes) → ℕ → ℕ → SnapshotBuilder → SnapshotBuilder
random_records fills zero i b = b
random_records fills (suc left) i b =
    random_records fills left (i + 1) (add_record b (random_key fills i) (random_value fills i))

module _ (go : GoFunction) (sha256 : Bytes → Bytes) (calls : Calls) (timestamp : ℕ) where
  -- `builder.build(&output)?`
  built : SnapshotBuilder → Action Output InputError Unit
  built b o =
      let (outcome, after) = build go sha256 calls timestamp b o in
      (map_err not_built outcome, after)

  -- The records that were read are built; if reading failed, the output is not touched.
  build_from : Outcome InputError SnapshotBuilder → Action Output InputError Unit
  build_from (ok b) o = built b o
  build_from (err e) o = (err e, o)
  build_from panic o = (panic, o)

  unfoldable pub build_from_binary : Outcome Text Bytes → Action Output InputError Unit
  unfolding build_from built records_of_binary
  build_from_binary input =
      build_from (do mmap ← map_err input_not_opened input; records_of_binary mmap)

  -- `rows has_header` is what the reader yields for the file with or without a header row.
  unfoldable pub build_from_csv :
      Outcome Text (Bool → List (Outcome Text (List Text)))
      → ℕ
      → ℕ
      → Bool
      → Action Output InputError Unit
  unfolding build_from built csv_records Snapshot.new
  build_from_csv input key_column value_column has_header = build_from (do
    rows ← map_err input_not_opened input
    csv_records key_column value_column (rows has_header) Snapshot.new)

  unfoldable pub build_random : (ℕ → Bytes × Bytes) → ℕ → Action Output InputError Unit
  unfolding built random_records Snapshot.new
  build_random fills count = built (random_records fills count 0 Snapshot.new)
