-- ===== src/Builder/CommandLine.antt =====
-- crates/snapshot-builder/src/main.rs: the commands, over the files that they read and write.
pub mod Sequence
use lowlatency.Common.{
  ℕ, Bytes, Text, List, [], ◌∷◌, ◌++◌, Option, Bool, bytes_eq, mul64, Outcome, ok, err, panic,
  map_err, if◌then◌else◌, ltb, ◌^◌,
}
use lowlatency.Common.Action.{Action, lift, modify, ◌>>=◌, ◌>>◌}
use lowlatency.Common.Choice.{Choice}
use lowlatency.Common.Format.{codes}
use lowlatency.Kv.Error.{Error}
use lowlatency.Kv.Record.{record_size}
use lowlatency.Kv.GoFunction.{GoFunction}
use lowlatency.Kv.Store
use lowlatency.Kv.Store.{FilePath, Disk, open_store}
use lowlatency.Builder.Snapshot.{Calls, Output}
use lowlatency.Builder.Inputs.{InputError, build_from_csv, build_from_binary, build_random}
use lowlatency.Builder.Validation.{ValidationError, validate_snapshot}

pub data Commands : Type 0 where
  csv : (input output : FilePath) (key_column value_column : ℕ) (has_header : Bool) → Commands
  binary : (input output : FilePath) → Commands
  random : (output : FilePath) (count : ℕ) (seed : Option ℕ) → Commands
  validate : (snapshot : FilePath) (sample_size : ℕ) → Commands
  info : (snapshot : FilePath) → Commands

pub data CommandError : Type 0 where
  not_built : InputError → CommandError
  not_valid : ValidationError → CommandError
  not_opened : Error → CommandError

-- The numbers that `print_info` prints.
pub record SnapshotInfo : Type 0 where
  pub record_count : ℕ
  pub file_size : ℕ
  pub build_timestamp : ℕ
  pub data_size : ℕ

-- The files, and what has been printed.
pub record Shell : Type 0 where
  pub files : FilePath → Output
  pub printed : List SnapshotInfo

-- What the crates `csv` and `rand` provide: the rows of a file, with or without a header row; the
-- bytes that a generator fills in, from a seed or from entropy; and a choice of elements.
pub record Crates : Type 0 where
  pub rows : Bytes → Bool → List (Outcome Text (List Text))
  pub fills : Option ℕ → ℕ → Bytes × Bytes
  pub choose : Choice

abbrev pub Command : Type 0 → Type 0
Command A = Action Shell CommandError A

unfoldable pub update : FilePath → Output → (FilePath → Output) → FilePath → Output
update path o files other = if bytes_eq path other then o else files other

-- Opening and mapping a file.
unfoldable pub read_file : (FilePath → Output) → Disk
read_file files path =
    if (files path).exists
    then ok (files path).contents
    else err (codes "No such file or directory")

-- A build that writes one file.
unfoldable pub write_output : FilePath → Action Output InputError Unit → Command Unit
unfolding update
write_output path action shell =
    let (outcome, o) = action (shell.files path) in
    (map_err not_built outcome, record shell { files = update path o shell.files })

-- `UNIX_EPOCH + Duration::from_secs(timestamp)` on a clock of 64 bits with a sign.
unfoldable pub chrono_format : ℕ → Outcome CommandError (Unit {0})
chrono_format timestamp = if ltb timestamp (2 ^ 63) then ok tt else panic

module _ (go : GoFunction) (sha256 : Bytes → Bytes) (calls : Calls) (timestamp : ℕ)
    (crates : Crates) where
  -- What has been printed before a panic is left out.
  unfoldable pub print_info : FilePath → Command Unit
  unfolding Store.version_info chrono_format
  print_info snapshot shell =
      (do
        store ← lift (map_err not_opened (open_store go (read_file shell.files) snapshot))
        let info = Store.version_info go store
        lift (chrono_format info.build_timestamp)
        modify (λ sh. record sh {
          printed =
              sh.printed
              ++ (record {
                record_count = info.record_count;
                file_size = info.file_size;
                build_timestamp = info.build_timestamp;
                data_size = mul64 info.record_count record_size;
              }
                  ∷ []);
        }))
        shell

  rows_of : Outcome Text Bytes → Outcome Text (Bool → List (Outcome Text (List Text)))
  rows_of (ok contents) = ok (crates.rows contents)
  rows_of (err e) = err e
  rows_of panic = panic

  unfoldable pub main : Commands → Command Unit
  unfolding print_info write_output read_file rows_of
  main (csv input output key_column value_column has_header) shell =
      write_output output
        (build_from_csv go sha256 calls timestamp (rows_of (read_file shell.files input)) key_column
          value_column has_header)
        shell
  main (binary input output) shell =
      write_output output
        (build_from_binary go sha256 calls timestamp (read_file shell.files input)) shell
  main (random output count seed) shell =
      write_output output (build_random go sha256 calls timestamp (crates.fills seed) count) shell
  main (validate snapshot sample_size) shell =
      lift
        (map_err not_valid
          (validate_snapshot go (read_file shell.files) crates.choose snapshot sample_size))
        shell
  main (info snapshot) shell = print_info snapshot shell
