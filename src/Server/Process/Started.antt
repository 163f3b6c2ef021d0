-- ===== src/Server/Process/Started.antt =====
-- The start of the process: what it serves, and that a start that fails has started nothing.
use lowlatency.Common.{
  ℕ, ◌≡◌, ◌⊎◌, refl, ◌∙◌, Bytes, List, [], ◌∷◌, ◌++◌, length, Bool, true, false, Outcome, ok, err,
  panic, map_err, eq→==,
}
use lowlatency.Common.Format.{codes, decimal}
use lowlatency.Kv.Record.{IsKey, key_size}
use lowlatency.Kv.GoFunction.{GoFunction, IsLawful}
use lowlatency.Kv.Store
use lowlatency.Kv.Store.{Disk, KvStore, open_store}
use lowlatency.Kv.Store.Loaded.{lookup, IsTable, IsLoaded}
use lowlatency.Kv.Store.Opening.{open_bytes-IsLoaded}
use lowlatency.Builder.Snapshot.{SnapshotBuilder, Output, build}
use lowlatency.Builder.Snapshot.Layout.{all_succeed}
use lowlatency.Builder.Snapshot.Built.{IsBuildable, build-IsBuilt}
use lowlatency.Server.Metrics
use lowlatency.Server.Metrics.{Metrics}
use lowlatency.Server.Metrics.Registry.{Prometheus, Instruments, new_instruments}
use lowlatency.Server.Metrics.Registry.Registered.{IsDocumented, new_instruments-encode}
use lowlatency.Server.Service
use lowlatency.Server.Service.{KvServiceImpl, get, health}
use lowlatency.Server.Service.Replies.{answer, counted, with_request, get-answer}
use lowlatency.Server.Process.{
  Cli, StartError, grpc_server_error, Event, metrics_spawned, grpc_served, Network, address_text,
  preloaded, emit, main,
}

preloaded_lem :
    (go : GoFunction) (net : Network) (prom : Prometheus) (wanted : Bool) (store : KvStore go)
    → (n : ℕ) × (preloaded go net prom wanted store ≡ ok n)
unfolding preloaded Store.preload
preloaded_lem go net prom true store = (_, refl)
preloaded_lem go net prom false store = (_, refl)

module _ (go : GoFunction) (net : Network) (prom : Prometheus) (doc : IsDocumented prom)
    (disk : Disk) (cli : Cli) (events : List (Event go net.Address)) where
  made : (i : Instruments prom) × (new_instruments {E = StartError} prom ≡ ok i)
  made = let all = new_instruments-encode StartError prom Metrics.new doc in (all.0, all.1)

  main_lem :
      (s : KvStore go) (g m : net.Address)
      → open_store go disk cli.snapshot ≡ ok s
      → net.parse (address_text cli.bind cli.port) ≡ ok g
      → net.parse (address_text cli.bind cli.metrics_port) ≡ ok m
      → main go net prom disk cli events ≡ (
        map_err grpc_server_error (net.serve g),
        events ++ (metrics_spawned m ∷ []) ++ (grpc_served g (Service.new go s) ∷ []),
      )
  unfolding main emit
  main_lem s g m opens grpc metrics =
      let (n, touched) = preloaded_lem go net prom cli.preload s in
      rw (opens, touched, made.1, grpc, metrics)

  -- What the process needs has failed, and so has the process, having started nothing.
  abbrev pub Stopped : {F A : Type 0} → Outcome F A → (F → StartError) → Type 0
  Stopped {F = F} needed wrapped =
      ((e : F) × (needed ≡ err e) × (main go net prom disk cli events ≡ (err (wrapped e), events)))
      ⊎ ((needed ≡ panic) × (main go net prom disk cli events ≡ (panic, events)))

-- The first request of a new service over a store that holds a table.
new-get :
    (go : GoFunction) (s : KvStore go) (keys values : List Bytes) (key : Bytes) (elapsed : ℕ)
    → IsTable keys values
    → IsLoaded go s keys values
    → IsKey key
    → get go key elapsed (Service.new go s) ≡ (
      ok (answer (lookup key keys values)),
      record (Service.new go s) {
        metrics = with_request elapsed (counted (lookup key keys values) Metrics.new);
      },
    )
unfolding Service.new
new-get go s keys values key elapsed table loaded sized =
    get-answer go keys values table (Service.new go s) loaded key elapsed
    ∙ rw (eq→== (length key) key_size sized)

-- A file that the builder has built, at the path that the server is started with, and two addresses
-- that are accepted, with a crate `prometheus` that does as it documents: the process starts the
-- metrics endpoint and a service that reports the number of the builder's records and the time of
-- the build, answers a key of 64 bytes with the value that the builder had for it, or with a miss,
-- and counts this first request.
pub main-get :
    (go : GoFunction) (net : Network) (prom : Prometheus) (sha256 : Bytes → Bytes) (timestamp : ℕ)
    (b : SnapshotBuilder) (o : Output) (disk : Disk) (cli : Cli) (g m : net.Address) (key : Bytes)
    (elapsed : ℕ)
    → IsLawful go
    → IsDocumented prom
    → IsBuildable sha256 timestamp b
    → disk cli.snapshot ≡ ok (build go sha256 all_succeed timestamp b o).1.contents
    → net.parse (address_text cli.bind cli.port) ≡ ok g
    → net.parse (address_text cli.bind cli.metrics_port) ≡ ok m
    → IsKey key
    → (service : KvServiceImpl go) × (main go net prom disk cli [] ≡ (
      map_err grpc_server_error (net.serve g),
      metrics_spawned m ∷ (grpc_served g service ∷ []),
    ))
      × (get go key elapsed service ≡ (
        ok (answer (lookup key b.keys b.values)),
        record service {
          metrics = with_request elapsed (counted (lookup key b.keys b.values) Metrics.new);
        },
      ))
      × (health go service ≡ (
        ok (record {
          healthy = true;
          version = codes "v" ++ decimal timestamp;
          record_count = length b.keys;
          build_timestamp = timestamp;
        }),
        service,
      ))
unfolding health Service.new Store.version_info
main-get go net prom sha256 timestamp b o disk cli g m key elapsed lawful doc ready on_disk grpc
      metrics sized =
    let (after, ran, built) = build-IsBuilt go sha256 timestamp b o lawful ready in
    let (s, opens, loaded, mapped, info) =
      open_bytes-IsLoaded go after.contents built.header built.index built.mphf b.keys b.values
        built.snapshot in
    let found : open_store go disk cli.snapshot ≡ ok s =
      unfold open_store in rw (on_disk, ran) opens in
    let numbers : s.version_info ≡ record {
      build_timestamp = timestamp;
      record_count = length b.keys;
      file_size = length after.contents;
    } =
      info ∙ λ i. record {
        build_timestamp = built.stamped i;
        record_count = built.snapshot.counted i;
        file_size = length after.contents;
      } in
    (
      Service.new go s,
      main_lem go net prom doc disk cli [] s g m found grpc metrics,
      new-get go s b.keys b.values key elapsed ready.table loaded sized,
      λ i. (
        ok (record {
          healthy = true;
          version = codes "v" ++ decimal ((numbers i).build_timestamp);
          record_count = (numbers i).record_count;
          build_timestamp = (numbers i).build_timestamp;
        }),
        Service.new go s,
      ),
    )
