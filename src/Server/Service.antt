-- ===== src/Server/Service.antt =====
-- crates/kv-server/src/server.rs: the gRPC service over a store that can be replaced.
pub mod Replies
pub mod Batches
use lowlatency.Common.{
  ℕ, Bytes, Text, List, [], ◌∷◌, ◌++◌, length, Option, some, none, Bool, true, false, ◌==◌,
  if◌then◌else◌, ok, err,
}
use lowlatency.Common.Action.{Action, lift, ◌>>=◌, ◌>>◌}
use lowlatency.Common.Format.{codes, decimal}
use lowlatency.Kv.Record.{key_size}
use lowlatency.Kv.GoFunction.{GoFunction}
use lowlatency.Kv.Store
use lowlatency.Kv.Store.{KvStore}
use lowlatency.Server.Metrics
use lowlatency.Server.Metrics.{Metrics}

-- The statuses that the handlers return.
pub data Status : Type 0 where
  invalid_argument : Text → Status
  internal : Text → Status

pub record GetResponse : Type 0 where
  pub found : Bool
  pub value : Bytes

pub record HealthResponse : Type 0 where
  pub healthy : Bool
  pub version : Text
  pub record_count : ℕ
  pub build_timestamp : ℕ

-- The store behind the `ArcSwap`, and the shared metrics.
pub record KvServiceImpl (go : GoFunction) : Type 0 where
  pub store : KvStore go
  pub metrics : Metrics

pub key_size_message : ℕ → Text
key_size_message got = codes "Key must be exactly 64 bytes, got " ++ decimal got

pub batch_key_message : Text
batch_key_message = codes "All keys must be exactly 64 bytes"

-- `key.as_slice().try_into()`
pub to_array : Bytes → Option Bytes
to_array key = if length key == key_size then some key else none

module _ (go : GoFunction) where
  abbrev pub Handler : Type 0 → Type 0
  Handler A = Action (KvServiceImpl go) Status A

  unfoldable pub new : KvStore go → KvServiceImpl go
  unfolding Metrics.new
  new store = record { store = store; metrics = Metrics.new }

  -- The swap of the store is atomic.
  unfoldable pub reload : KvStore go → KvServiceImpl go → KvServiceImpl go
  reload new_store service = record service { store = new_store }

  abbrev pub meter : (Metrics → Metrics) → Handler Unit
  meter f service = (ok tt, record service { metrics = f service.metrics })

  abbrev pub load : Handler (KvStore go)
  load service = (ok service.store, service)

  abbrev pub pure : {A : Type 0} → A → Handler A
  pure a service = (ok a, service)

  -- An error that is counted.
  abbrev pub reject : {A : Type 0} → Status → Handler A
  reject status service =
      (err status, record service { metrics = Metrics.increment_errors service.metrics })

  convert : Option Bytes → Handler Bytes
  convert none = reject (internal (codes "Key conversion failed"))
  convert (some key) = pure key

  unfoldable pub respond : Option Bytes → Handler GetResponse
  respond (some value) = do
    meter Metrics.increment_hits
    pure (record { found = true; value = value })
  respond none = do meter Metrics.increment_misses; pure (record { found = false; value = [] })

  -- `elapsed` is what the clock shows at the end of the request.
  unfoldable pub get : Bytes → ℕ → Handler GetResponse
  unfolding convert respond key_size_message to_array
  get key elapsed =
      if length key == key_size
      then (do
        array ← convert (to_array key)
        store ← load
        found ← lift (Store.get go store array)
        response ← respond found
        meter (Metrics.record_latency elapsed)
        meter Metrics.increment_requests
        pure response)
      else reject (invalid_argument (key_size_message (length key)))

  -- One round of the loop over the keys of a batch, in the store that the batch began with.
  unfoldable pub batch_key : KvStore go → Bytes → Handler GetResponse
  unfolding convert respond batch_key_message to_array
  batch_key store key =
      if length key == key_size
      then (do
        array ← convert (to_array key)
        found ← lift (Store.get go store array)
        respond found)
      else reject (invalid_argument batch_key_message)

  unfoldable pub batch_keys :
      KvStore go → List Bytes → List GetResponse → Handler (List GetResponse)
  unfolding batch_key
  batch_keys store [] results = pure results
  batch_keys store (key ∷ keys) results = do
    result ← batch_key store key
    batch_keys store keys (results ++ (result ∷ []))

  unfoldable pub batch_get : List Bytes → ℕ → Handler (List GetResponse)
  unfolding batch_keys
  batch_get keys elapsed = do
    store ← load
    results ← batch_keys store keys []
    meter (Metrics.record_latency elapsed)
    meter Metrics.increment_requests
    pure results

  unfoldable pub health : Handler HealthResponse
  unfolding Store.version_info
  health service =
      let info = Store.version_info go service.store in
      (
        ok (record {
          healthy = true;
          version = codes "v" ++ decimal info.build_timestamp;
          record_count = info.record_count;
          build_timestamp = info.build_timestamp;
        }),
        service,
      )
