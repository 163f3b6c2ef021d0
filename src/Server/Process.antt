-- ===== src/Server/Process.antt =====
-- crates/kv-server/src/main.rs: the start of the server process, and the metrics endpoint.
pub mod Started
pub mod Endpoint
use lowlatency.Common.{
  ℕ, Text, List, [], ◌∷◌, ◌++◌, Bool, Option, some, none, Outcome, ok, map_err, if◌then◌else◌,
  bytes_eq,
}
use lowlatency.Common.Action.{Action, lift, modify, ◌>>=◌, ◌>>◌}
use lowlatency.Common.Format.{codes, decimal}
use lowlatency.Kv.Error.{Error}
use lowlatency.Kv.GoFunction.{GoFunction}
use lowlatency.Kv.Store
use lowlatency.Kv.Store.{Disk, FilePath, KvStore, open_store}
use lowlatency.Server.Metrics
use lowlatency.Server.Metrics.{Metrics}
use lowlatency.Server.Metrics.Registry.{Prometheus, new_instruments}
use lowlatency.Server.Service
use lowlatency.Server.Service.{KvServiceImpl}

-- The arguments of the command line.
pub record Cli : Type 0 where
  pub snapshot : FilePath
  pub port : ℕ
  pub metrics_port : ℕ
  pub bind : Text
  pub preload : Bool

pub data StartError : Type 0 where
  not_opened : Error → StartError
  not_preloaded : Error → StartError
  invalid_grpc_address : Text → StartError
  invalid_metrics_address : Text → StartError
  grpc_server_error : Text → StartError

-- What the process has started: the metrics endpoint on an address, and the service on another.
pub data Event {ℓ} (go : GoFunction) (Address : Type ℓ) : Type ℓ where
  metrics_spawned : Address → Event go Address
  grpc_served : Address → KvServiceImpl go → Event go Address

-- The address parser, and how serving on an address ends.
pub record Network : Type 1 where
  pub Address : Type 0
  pub parse : Text → Outcome Text Address
  pub serve : Address → Outcome Text (Unit {0})

-- `format!("{}:{}", bind, port)`
unfoldable pub address_text : Text → ℕ → Text
address_text bind port = bind ++ (codes ":" ++ decimal port)

module _ (go : GoFunction) (net : Network) (prom : Prometheus) where
  abbrev pub Process : Type 0 → Type 0
  Process A = Action (List (Event go net.Address)) StartError A

  emit : Event go net.Address → Process Unit
  emit event = modify (λ events. events ++ (event ∷ []))

  preloaded : Bool → KvStore go → Outcome StartError ℕ
  preloaded wanted store = if wanted then map_err not_preloaded (Store.preload go store) else ok 0

  unfoldable pub main : Disk → Cli → Process Unit
  unfolding preloaded address_text emit Service.new
  main disk cli = do
    store ← lift (map_err not_opened (open_store go disk cli.snapshot))
    touched ← lift (preloaded cli.preload store)
    instruments ← lift (new_instruments prom)
    let service = Service.new go store
    grpc_addr ← lift (map_err invalid_grpc_address (net.parse (address_text cli.bind cli.port)))
    metrics_addr ←
        lift (map_err invalid_metrics_address (net.parse (address_text cli.bind cli.metrics_port)))
    emit (metrics_spawned metrics_addr)
    emit (grpc_served grpc_addr service)
    lift (map_err grpc_server_error (net.serve grpc_addr))

-- A response of the metrics endpoint.
pub record HttpResponse : Type 0 where
  pub status : ℕ
  pub content_type : Option Text
  pub body : Text

-- `encode` is `Metrics::encode`, the text of the registry.
unfoldable pub respond_http : (Metrics → Text) → Metrics → Text → HttpResponse
respond_http encode metrics path =
    if bytes_eq path (codes "/metrics")
    then record {
      status = 200;
      content_type = some (codes "text/plain; version=0.0.4");
      body = encode metrics;
    }
    else if bytes_eq path (codes "/health")
    then record { status = 200; content_type = none; body = codes "OK" }
    else record { status = 404; content_type = none; body = codes "Not Found" }
