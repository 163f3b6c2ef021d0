-- ===== src/Builder/CommandLine/Sequence.antt =====
-- Commands that follow one another on the same file.
use lowlatency.Common.{
  ℕ, ◌*◌, ◌^◌, ◌≤◌, ◌<◌, ◌≡◌, refl, ap, ◌∙◌, arith, Bytes, [], ◌∷◌, ◌++◌, length, Option, true, ltb,
  bytes_eq_refl, mul64, ok,
}
use lowlatency.Common.Choice.{IsChoice}
use lowlatency.Kv.Header.{max_records}
use lowlatency.Kv.Record.{record_size}
use lowlatency.Kv.GoFunction.{GoFunction, IsLawful}
use lowlatency.Kv.Store
use lowlatency.Kv.Store.{VersionInfo, FilePath, open_store}
use lowlatency.Kv.Store.Opening.{open_bytes-IsLoaded}
use lowlatency.Builder.Snapshot
use lowlatency.Builder.Snapshot.{Output}
use lowlatency.Builder.Snapshot.Layout.{all_succeed}
use lowlatency.Builder.Inputs.{random_records}
use lowlatency.Builder.Inputs.Random.{random_records-IsTable}
use lowlatency.Builder.Inputs.Random.Built.{build_random-IsBuilt}
use lowlatency.Builder.Validation.{validate_snapshot_passes}
use lowlatency.Builder.CommandLine.{
  random, validate, info, Shell, Crates, update, read_file, write_output, print_info, chrono_format,
  main,
}

-- What was written to a path is read there.
read_file-update :
    (path : FilePath) (o : Output) (files : FilePath → Output)
    → o.exists ≡ true
    → read_file (update path o files) path ≡ ok o.contents
unfolding read_file update
read_file-update path o files there = rw (bytes_eq_refl path, there) refl

-- The command `random`, for 1 to 10^10 records and whatever bytes the generator gives, at a time
-- below 2^63 seconds, writes only the output path when all system calls succeed. On that file the
-- command `validate` then passes, for any sample that is drawn, and `info` prints the number of
-- records, their size of 320 bytes each and the time of the build.
pub random-validate-info :
    (go : GoFunction) (sha256 : Bytes → Bytes) (timestamp : ℕ) (crates : Crates) (output : FilePath)
    (count : ℕ) (seed : Option ℕ) (sample_size : ℕ) (shell : Shell)
    → IsLawful go
    → IsChoice crates.choose
    → ((section : Bytes) → length (sha256 section) ≡ 32)
    → timestamp < 2 ^ 63
    → 0 < count
    → count ≤ max_records
    → (after : Output) × (built : Shell) × (built
        ≡ record shell { files = update output after shell.files })
      × (main go sha256 all_succeed timestamp crates (random output count seed) shell
          ≡ (ok tt, built))
      × (main go sha256 all_succeed timestamp crates (validate output sample_size) built
          ≡ (ok tt, built))
      × (main go sha256 all_succeed timestamp crates (info output) built ≡ (
        ok tt,
        record built {
          printed =
              built.printed
              ++ (record {
                record_count = count;
                file_size = length after.contents;
                build_timestamp = timestamp;
                data_size = count * record_size;
              }
                  ∷ []);
        },
      ))
unfolding main print_info chrono_format write_output Store.version_info
random-validate-info go sha256 timestamp crates output count seed sample_size shell lawful fair
      digest clock few many =
    let made = random_records (crates.fills seed) count 0 Snapshot.new in
    let (table, counted) = random_records-IsTable (crates.fills seed) count (omega arith) in
    let (after, ran, done) =
      build_random-IsBuilt go sha256 timestamp (crates.fills seed) count (shell.files output) lawful
        digest (omega (arith, clock)) few many in
    let (s, opens, loaded, mapped, version) =
      open_bytes-IsLoaded go after.contents done.header done.index done.mphf made.keys made.values
        done.snapshot in
    let files : FilePath → Output = update output after shell.files in
    let found : open_store go (read_file files) output ≡ ok s =
      unfold open_store in rw (read_file-update output after shell.files done.there) opens in
    let valid =
      validate_snapshot_passes go s made.keys made.values (read_file files) crates.choose output
        sample_size table loaded fair found in
    let held : done.header.record_count ≡ count = done.snapshot.counted ∙ counted in
    let numbers : s.version_info ≡ record {
      build_timestamp = timestamp;
      record_count = count;
      file_size = length after.contents;
    } =
      version ∙ λ i. record {
        build_timestamp = done.stamped i;
        record_count = held i;
        file_size = length after.contents;
      } in
    let stamped : ltb s.version_info.build_timestamp (2 ^ 63) ≡ true =
      ap (λ (v : VersionInfo). ltb v.build_timestamp (2 ^ 63)) numbers ∙ ground (arith, clock) in
    let sized : mul64 s.version_info.record_count record_size ≡ count * record_size =
      ap (λ (v : VersionInfo). mul64 v.record_count record_size) numbers ∙ omega arith in
    (
      after,
      record shell { files = files },
      refl,
      rw ran refl,
      rw valid refl,
      rw (found, stamped)
          (λ i. (
            ok tt,
            record shell {
              files = files;
              printed =
                  shell.printed
                  ++ (record {
                    record_count = (numbers i).record_count;
                    file_size = (numbers i).file_size;
                    build_timestamp = (numbers i).build_timestamp;
                    data_size = sized i;
                  }
                      ∷ []);
            },
          )),
    )
