-- ===== src/Server/Concurrent.antt =====
-- crates/kv-server/src/server.rs with any number of requests at a time, an atomic access of the
-- shared service at each step. A request is at a point of its handler, with the values that are
-- live there.
pub mod Counted
pub mod Totals
pub mod Alone
pub mod Progress
pub mod Drained
pub mod Tickets
pub mod Explained
pub mod Atomic
pub mod Reloads
pub mod Built
pub mod Opened
use lowlatency.Common.{
  ℕ, ◌+◌, Bytes, List, [], ◌∷◌, ◌++◌, length, Option, some, none, true, false, ◌==◌, if◌then◌else◌,
  ◌≡◌, Outcome, ok, ◌>>=◌, ◌>>◌,
}
use lowlatency.Kv.Record.{key_size}
use lowlatency.Kv.GoFunction.{GoFunction}
use lowlatency.Kv.Store
use lowlatency.Kv.Store.{KvStore}
use lowlatency.Server.Metrics
use lowlatency.Server.Metrics.{Metrics}
use lowlatency.Server.Service
use lowlatency.Server.Service.{
  Status, invalid_argument, GetResponse, KvServiceImpl, key_size_message, batch_key_message, reload,
}

pub data Point (go : GoFunction) : Type 0 where
  get_started : Bytes → Point go
  get_loaded : Bytes → KvStore go → Point go  -- behind `self.store.load()`
  get_looked_up : Option Bytes → Point go
  get_counted : GetResponse → Point go
  get_timed : GetResponse → Point go
  get_replied : GetResponse → Point go
  batch_started : List Bytes → Point go
  batch_round : KvStore go → List Bytes → List GetResponse → Point go  -- head of the loop
  batch_looked_up : KvStore go → Option Bytes → List Bytes → List GetResponse → Point go
  batch_timed : List GetResponse → Point go
  batch_replied : List GetResponse → Point go
  rejecting : Status → ℕ → Point go  -- before `increment_errors`, after that many look-ups
  rejected : Status → ℕ → Point go

abbrev pub reply : Option Bytes → GetResponse
reply none = record { found = false; value = [] }
reply (some value) = record { found = true; value = value }

-- A hit or a miss.
abbrev pub count_lookup : Option Bytes → Metrics → Metrics
count_lookup none m = Metrics.increment_misses m
count_lookup (some value) m = Metrics.increment_hits m

module _ (go : GoFunction) where
  abbrev pub measured : (Metrics → Metrics) → KvServiceImpl go → KvServiceImpl go
  measured f service = record service { metrics = f service.metrics }

  -- A step of one request. A request that has been replied to stays as it is.
  unfoldable pub advance :
      ℕ → KvServiceImpl go → Point go → Outcome Status (KvServiceImpl go × Point go)
  advance elapsed service (get_started key) =
      if length key == key_size
      then ok (service, get_loaded key service.store)
      else ok (service, rejecting (invalid_argument (key_size_message (length key))) 0)
  advance elapsed service (get_loaded key store) = do
    found ← Store.get go store key
    ok (service, get_looked_up found)
  advance elapsed service (get_looked_up found) =
      ok (measured (count_lookup found) service, get_counted (reply found))
  advance elapsed service (get_counted response) =
      ok (measured (Metrics.record_latency elapsed) service, get_timed response)
  advance elapsed service (get_timed response) =
      ok (measured Metrics.increment_requests service, get_replied response)
  advance elapsed service (get_replied response) = ok (service, get_replied response)
  advance elapsed service (batch_started keys) = ok (service, batch_round service.store keys [])
  advance elapsed service (batch_round store [] results) =
      ok (measured (Metrics.record_latency elapsed) service, batch_timed results)
  advance elapsed service (batch_round store (key ∷ keys) results) =
      if length key == key_size
      then (do
        found ← Store.get go store key
        ok (service, batch_looked_up store found keys results))
      else ok (service, rejecting (invalid_argument batch_key_message) (length results))
  advance elapsed service (batch_looked_up store found keys results) = ok (
    measured (count_lookup found) service,
    batch_round store keys (results ++ (reply found ∷ [])),
  )
  advance elapsed service (batch_timed results) =
      ok (measured Metrics.increment_requests service, batch_replied results)
  advance elapsed service (batch_replied results) = ok (service, batch_replied results)
  advance elapsed service (rejecting status answered) =
      ok (measured Metrics.increment_errors service, rejected status answered)
  advance elapsed service (rejected status answered) = ok (service, rejected status answered)

-- The service, and the requests that have arrived.
pub record Server (go : GoFunction) : Type 0 where
  pub service : KvServiceImpl go
  pub requests : List (Point go)

-- Every look-up in the store returns.
abbrev pub IsTotal : (go : GoFunction) → KvStore go → Type 0
IsTotal go s = (key : Bytes) → (value : Option Bytes) × (Store.get go {E = Status} s key ≡ ok value)

module _ (go : GoFunction) where
  -- A request arrives, `reload` swaps the store, or one of the requests makes a step.
  pub data Step : Server go → Server go → Type 0 where
    get_arrives :
        (w : Server go) (key : Bytes)
        → Step w (record w { requests = get_started key ∷ w.requests })
    batch_arrives :
        (w : Server go) (keys : List Bytes)
        → Step w (record w { requests = batch_started keys ∷ w.requests })
    swap :
        (w : Server go) (new_store : KvStore go)
        → Step w (record w { service = reload go new_store w.service })
    turn :
        (w : Server go) (elapsed : ℕ) (front back : List (Point go)) (p q : Point go)
        (after : KvServiceImpl go)
        → w.requests ≡ front ++ (p ∷ back)
        → advance go elapsed w.service p ≡ ok (after, q)
        → Step w (record { service = after; requests = front ++ (q ∷ back) })

  pub data Reach (start : Server go) : Server go → Type 0 where
    here : Reach start start
    next : {w v : Server go} → Reach start w → Step w v → Reach start v

  -- A new server without requests.
  unfoldable pub started : KvStore go → Server go
  unfolding Service.new
  started store = record { service = Service.new go store; requests = [] }
