-- ===== src/Tests/Process.antt =====
-- The start of the server process, and builds that fail, at concrete inputs.
use lowlatency.Common.{
  ℕ, ◌≡◌, refl, Text, [], ◌∷◌, replicate, some, none, true, bytes_eq, if◌then◌else◌, ok, err, ◌++◌,
}
use lowlatency.Common.Format.{codes, decimal}
use lowlatency.Kv.Store.{Disk}
use lowlatency.Kv.Store.Loaded.{lookup}
use lowlatency.Builder.Snapshot.{
  Output, build, file_not_created, size_not_set, file_not_mapped, map_not_flushed,
}
use lowlatency.Builder.Snapshot.Layout.{all_succeed, up_to_flush}
use lowlatency.Builder.Snapshot.Failures.{build_failures}
use lowlatency.Server.Metrics
use lowlatency.Server.Service
use lowlatency.Server.Service.{KvServiceImpl, get, health}
use lowlatency.Server.Service.Replies.{answer, counted, with_request}
use lowlatency.Server.Process.{Cli, metrics_spawned, grpc_served, Network, address_text, main}
use lowlatency.Server.Process.Started.{main-get}
use lowlatency.Server.Metrics.{Metrics}
use lowlatency.Tests.Prometheus.{small, small-IsDocumented}
use lowlatency.Tests.Hash.{places, places-IsLawful}
use lowlatency.Tests.Data.{
  key_of, key_of-IsKey, two_keys, two_values, two_records, digest, stamp, two-IsBuildable, no_file,
}

-- Every address is accepted, and serving ends at once.
abbrev network : Network
network = record { Address = Text; parse = λ text. ok text; serve = λ address. ok tt }

abbrev disk : Disk
disk path = ok (build places digest all_succeed stamp two_records no_file).1.contents

abbrev arguments : Cli
arguments = record {
  snapshot = codes "/data/snapshot.bin";
  port = 9090;
  metrics_port = 9091;
  bind = codes "0.0.0.0";
  preload = true;
}

abbrev grpc_address : Text
grpc_address = address_text (codes "0.0.0.0") 9090

abbrev metrics_address : Text
metrics_address = address_text (codes "0.0.0.0") 9091

main-get_example :
    (service : KvServiceImpl places) × (main places network small disk arguments []
      ≡ (ok tt, metrics_spawned metrics_address ∷ (grpc_served grpc_address service ∷ [])))
    × (get places (key_of 2) 700 service ≡ (
      ok (answer (lookup (key_of 2) two_keys two_values)),
      record service {
        metrics = with_request 700 (counted (lookup (key_of 2) two_keys two_values) Metrics.new);
      },
    ))
    × (health places service ≡ (
      ok (record {
        healthy = true;
        version = codes "v" ++ decimal stamp;
        record_count = 2;
        build_timestamp = stamp;
      }),
      service,
    ))
main-get_example =
    main-get places network small digest stamp two_records no_file disk arguments grpc_address
      metrics_address (key_of 2) 700 places-IsLawful small-IsDocumented two-IsBuildable refl refl
      refl (key_of-IsKey 2)

-- A network that refuses the metrics port.
abbrev refusing : Network
refusing = record {
  Address = Text;
  parse = λ text. if bytes_eq text (codes "0.0.0.0:9091") then err (codes "refused") else ok text;
  serve = λ address. ok tt;
}

old_file : Output
old_file = record { exists = true; contents = 1 ∷ 2 ∷ [] }

build_failures_example :
    (build places digest
        (record { create = some (codes "denied"); set_len = none; map_mut = none; flush = none })
        stamp
        two_records
        old_file
      ≡ (err (file_not_created (codes "denied")), old_file))
    × (build places digest
          (record { create = none; set_len = some (codes "denied"); map_mut = none; flush = none })
          stamp
          two_records
          old_file
        ≡ (err (size_not_set (codes "denied")), record { exists = true; contents = [] }))
    × ((size : ℕ) × (build places digest
            (record {
              create = none;
              set_len = none;
              map_mut = some (codes "denied");
              flush = none;
            })
            stamp
            two_records
            old_file
          ≡ (
            err (file_not_mapped (codes "denied")),
            record { exists = true; contents = replicate size 0 },
          )))
    × ((after : Output) × (build places digest
            (up_to_flush (some (codes "denied")))
            stamp
            two_records
            old_file
          ≡ (err (map_not_flushed (codes "denied")), after))
        × (build places digest all_succeed stamp two_records old_file ≡ (ok tt, after)))
build_failures_example =
    build_failures places digest stamp two_records none none none (codes "denied") old_file
      places-IsLawful two-IsBuildable
