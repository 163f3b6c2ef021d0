-- ===== src/Server/Service/Replies.antt =====
-- What the handlers answer and count, over a store that holds a table.
use lowlatency.Common.{
  ℕ, ◌+◌, ◌≡◌, refl, Bytes, List, [], ◌∷◌, ◌++◌, length, Option, some, none, true, false, ◌==◌,
  if◌then◌else◌, ok, err, Bool-cases, inl, inr,
}
use lowlatency.Kv.Record.{key_size}
use lowlatency.Kv.GoFunction.{GoFunction}
use lowlatency.Kv.Store.Loaded.{IsTable, IsLoaded, lookup}
use lowlatency.Kv.Store.Lookup.{get-lookup}
use lowlatency.Server.Metrics
use lowlatency.Server.Metrics.{Metrics}
use lowlatency.Server.Service.{
  Status, invalid_argument, GetResponse, KvServiceImpl, get, key_size_message, convert, respond,
}

-- The response for a look-up.
unfoldable pub answer : Option Bytes → GetResponse
answer none = record { found = false; value = [] }
answer (some value) = record { found = true; value = value }

-- A look-up is counted as a hit or as a miss.
unfoldable pub counted : Option Bytes → Metrics → Metrics
counted none m = record m { misses_total = m.misses_total + 1 }
counted (some value) m = record m { hits_total = m.hits_total + 1 }

unfoldable pub with_error : Metrics → Metrics
with_error m = record m { errors_total = m.errors_total + 1 }

-- A request that succeeds is counted and timed.
unfoldable pub with_request : ℕ → Metrics → Metrics
with_request elapsed m = record m {
  requests_total = m.requests_total + 1;
  latency = m.latency ++ (elapsed ∷ []);
}

pub respond_lem :
    (go : GoFunction) (found : Option Bytes) (service : KvServiceImpl go)
    → respond go found service
      ≡ (ok (answer found), record service { metrics = counted found service.metrics })
unfolding respond answer counted Metrics.increment_hits Metrics.increment_misses
respond_lem go none service = refl
respond_lem go (some value) service = refl

module _ (go : GoFunction) (keys values : List Bytes) (table : IsTable keys values)
    (service : KvServiceImpl go) (loaded : IsLoaded go service.store keys values) where
  -- A GET with a key of 64 bytes is answered from the table, and counted as a request and as a hit
  -- or a miss; its latency is recorded, and the store stays. With a key of another size the answer
  -- is an error with the message that gives the size, and only the errors are counted.
  pub get-answer :
      (key : Bytes) (elapsed : ℕ)
      → get go key elapsed service ≡ (
          if length key == key_size
          then (
            ok (answer (lookup key keys values)),
            record service {
              metrics = with_request elapsed (counted (lookup key keys values) service.metrics);
            },
          )
          else (
            err (invalid_argument (key_size_message (length key))),
            record service { metrics = with_error service.metrics },
          ))
  unfolding get with_request with_error convert Metrics.record_latency Metrics.increment_requests
      Metrics.increment_errors
  get-answer key elapsed = elim (Bool-cases (length key == key_size)) [
    | inl sized ↦ rw (
      sized,
      get-lookup go service.store keys values {E = Status} key table loaded,
      respond_lem go (lookup key keys values) service,
    )
    | inr wrong ↦ rw wrong
  ]
