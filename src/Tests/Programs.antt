-- ===== src/Tests/Programs.antt =====
-- The command lines of crates/snapshot-builder/src/main.rs and crates/validator/src/main.rs at
-- concrete inputs.
use lowlatency.Common.{
  ◌≡◌, ◌*◌, ◌++◌, arith, Bytes, Text, List, [], ◌∷◌, length, none, false, Outcome, ok,
}
use lowlatency.Common.Format.{codes}
use lowlatency.Kv.Record.{record_size}
use lowlatency.Builder.Snapshot.{Output}
use lowlatency.Builder.Snapshot.Layout.{all_succeed}
use lowlatency.Builder.CommandLine
use lowlatency.Builder.CommandLine.{random, validate, info, Shell, Crates, update}
use lowlatency.Builder.CommandLine.Sequence.{random-validate-info}
use lowlatency.Validator.Pairs.{ExpectedPair}
use lowlatency.Validator.Diff.{Differences, total}
use lowlatency.Validator.CommandLine as Validating
use lowlatency.Validator.CommandLine.{check, bench, diff, blank, main_accepts}
use lowlatency.Tests.Hash.{places, places-IsLawful}
use lowlatency.Tests.Data.{
  two_keys, two_values, two-IsTable, digest, stamp, two-IsBuildable, no_file, two_store,
  two-IsLoaded,
}
use lowlatency.Tests.Commands.{disk, opens, steady, firsts, firsts-IsChoice}

abbrev crates : Crates
crates = record { rows = λ contents has_header. []; fills = λ seed. steady; choose = firsts }

abbrev shell : Shell
shell = record { files = λ path. no_file; printed = [] }

random-validate-info_example :
    (after : Output) × (built : Shell) × (built
      ≡ record shell { files = update (codes "a.bin") after shell.files })
    × (CommandLine.main places digest all_succeed stamp crates (random (codes "a.bin") 3 none) shell
        ≡ (ok tt, built))
    × (CommandLine.main places digest all_succeed stamp crates (validate (codes "a.bin") 10) built
        ≡ (ok tt, built))
    × (CommandLine.main places digest all_succeed stamp crates (info (codes "a.bin")) built ≡ (
      ok tt,
      record built {
        printed =
            built.printed
            ++ (record {
              record_count = 3;
              file_size = length after.contents;
              build_timestamp = stamp;
              data_size = 3 * record_size;
            }
                ∷ []);
      },
    ))
random-validate-info_example =
    random-validate-info places digest stamp crates (codes "a.bin") 3 none 10 shell places-IsLawful
      firsts-IsChoice two-IsBuildable.digest_sized (omega arith) (omega arith) (omega arith)

-- A parser that reads no pair.
abbrev parse : Bytes → Outcome Text (List ExpectedPair)
parse contents = ok []

main_accepts_example :
    (Validating.main places parse firsts 12 disk (check (codes "a.bin") 1 false) ≡ (
      ok tt,
      record blank {
        results =
            record {
              snapshot = codes "a.bin";
              record_count = 2;
              sample_size = 1;
              lookups_passed = 1;
              lookups_failed = 0;
              elapsed_ms = 12;
              status = codes "PASS";
            }
            ∷ [];
      },
    ))
    × (Validating.main places parse firsts 12 disk (bench (codes "a.bin") 5 3) ≡ (ok tt, blank))
    × (d : Differences) × (Validating.main places parse firsts 12 disk
          (diff (codes "a.bin") (codes "a.bin") 100)
        ≡ (ok tt, record blank { differences = d }))
    × (total d ≡ 0)
main_accepts_example =
    main_accepts places parse firsts 12 two_store two_keys two_values two-IsTable two-IsLoaded disk
      (codes "a.bin") 1 5 3 100 false firsts-IsChoice (opens (codes "a.bin")) (omega arith)
      (omega arith)
