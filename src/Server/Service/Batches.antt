-- ===== src/Server/Service/Batches.antt =====
-- Batches: answers in the order of the keys, all from the store that the batch began with.
use mathlib.Core.List.{append_assoc, append-nil}
use lowlatency.Common.{
  ℕ, ◌+◌, ◌≡◌, ◌≢◌, refl, ap, ◌∙◌, arith, Bytes, List, [], ◌∷◌, ◌++◌, length, map, Option, some,
  none, ok, err, eq→==, ne→==, All,
}
use lowlatency.Kv.Record.{key_size, IsKey}
use lowlatency.Kv.GoFunction.{GoFunction}
use lowlatency.Kv.Store.{KvStore}
use lowlatency.Kv.Store.Loaded.{IsTable, IsLoaded, lookup}
use lowlatency.Kv.Store.Lookup.{get-lookup}
use lowlatency.Server.Metrics
use lowlatency.Server.Metrics.{Metrics}
use lowlatency.Server.Service.{
  Status, invalid_argument, GetResponse, KvServiceImpl, batch_key, batch_keys, batch_get,
  batch_key_message, convert,
}
use lowlatency.Server.Service.Replies.{answer, counted, with_error, with_request, respond_lem}

counted-total :
    (found : Option Bytes) (m : Metrics)
    → (counted found m).hits_total + (counted found m).misses_total
      ≡ m.hits_total + m.misses_total + 1
unfolding counted
counted-total none m = omega arith
counted-total (some value) m = omega arith

counted-others :
    (found : Option Bytes) (m : Metrics)
    → ((counted found m).requests_total ≡ m.requests_total)
      × ((counted found m).errors_total ≡ m.errors_total)
unfolding counted
counted-others none m = (refl, refl)
counted-others (some value) m = (refl, refl)

module _ (keys values : List Bytes) where
  -- The responses for the keys that were asked for, in their order.
  unfoldable pub answers : List Bytes → List GetResponse
  answers asked = map (λ key. answer (lookup key keys values)) asked

  -- One hit or miss for each key.
  unfoldable pub counted_all : List Bytes → Metrics → Metrics
  counted_all [] m = m
  counted_all (key ∷ asked) m = counted_all asked (counted (lookup key keys values) m)

  -- Each key of a batch is counted once.
  pub counted_all-total :
      (asked : List Bytes) (m : Metrics)
      → (counted_all asked m).hits_total + (counted_all asked m).misses_total
        ≡ m.hits_total + m.misses_total + length asked
  unfolding counted_all
  counted_all-total [] m = omega arith
  counted_all-total (key ∷ asked) m =
      let found : Option Bytes = lookup key keys values in
      omega (arith, counted_all-total asked (counted found m), counted-total found m)

  counted_all-others :
      (asked : List Bytes) (m : Metrics)
      → ((counted_all asked m).requests_total ≡ m.requests_total)
        × ((counted_all asked m).errors_total ≡ m.errors_total)
  unfolding counted_all
  counted_all-others [] m = (refl, refl)
  counted_all-others (key ∷ asked) m =
      let found : Option Bytes = lookup key keys values in
      omega (arith, counted_all-others asked (counted found m), counted-others found m)

module _ (go : GoFunction) (keys values : List Bytes) (table : IsTable keys values)
    (store : KvStore go) (loaded : IsLoaded go store keys values) where
  pub batch_key-answer :
      (key : Bytes) (service : KvServiceImpl go)
      → IsKey key
      → batch_key go store key service ≡ (
        ok (answer (lookup key keys values)),
        record service { metrics = counted (lookup key keys values) service.metrics },
      )
  unfolding batch_key convert
  batch_key-answer key service sized = rw (
    eq→== _ _ sized,
    get-lookup go store keys values {E = Status} key table loaded,
    respond_lem go (lookup key keys values) service,
  )

  pub batch_key-reject :
      (key : Bytes) (service : KvServiceImpl go)
      → length key ≢ key_size
      → batch_key go store key service ≡ (
        err (invalid_argument batch_key_message),
        record service { metrics = with_error service.metrics },
      )
  unfolding batch_key with_error Metrics.increment_errors
  batch_key-reject key service wrong = rw (ne→== _ _ wrong)

  batch_keys-answers :
      (asked : List Bytes) (results : List GetResponse) (service : KvServiceImpl go)
      → All IsKey asked
      → batch_keys go store asked results service ≡ (
        ok (results ++ answers keys values asked),
        record service { metrics = counted_all keys values asked service.metrics },
      )
  unfolding batch_keys answers counted_all
  batch_keys-answers [] results service sized = rw append-nil
  batch_keys-answers (key ∷ asked) results service sized =
      let first : GetResponse = answer (lookup key keys values) in
      rw (batch_key-answer key service sized.0) (
        batch_keys-answers asked (results ++ (first ∷ []))
          (record service { metrics = counted (lookup key keys values) service.metrics }) sized.1
        ∙ rw (append_assoc results (first ∷ []) (answers keys values asked)))

  batch_keys-reject :
      (front : List Bytes) (bad : Bytes) (back : List Bytes) (results : List GetResponse)
      (service : KvServiceImpl go)
      → All IsKey front
      → length bad ≢ key_size
      → batch_keys go store (front ++ (bad ∷ back)) results service ≡ (
        err (invalid_argument batch_key_message),
        record service { metrics = with_error (counted_all keys values front service.metrics) },
      )
  unfolding batch_keys counted_all
  batch_keys-reject [] bad back results service sized wrong =
      rw (batch_key-reject bad service wrong)
  batch_keys-reject (key ∷ front) bad back results service sized wrong =
      rw (batch_key-answer key service sized.0) (
        batch_keys-reject front bad back _
          (record service { metrics = counted (lookup key keys values) service.metrics }) sized.1
          wrong)

-- A batch whose keys all have 64 bytes is answered key by key from the table, in the order of the
-- keys; each key counts as a hit or a miss, the batch as one request with one latency, and the
-- store stays.
pub batch_get-answers :
    (go : GoFunction) (keys values : List Bytes) (service : KvServiceImpl go) (asked : List Bytes)
    (elapsed : ℕ)
    → IsTable keys values
    → IsLoaded go service.store keys values
    → All IsKey asked
    → batch_get go asked elapsed service ≡ (
      ok (answers keys values asked),
      record service {
        metrics = with_request elapsed (counted_all keys values asked service.metrics);
      },
    )
unfolding batch_get with_request Metrics.record_latency Metrics.increment_requests
batch_get-answers go keys values service asked elapsed table loaded sized =
    rw (batch_keys-answers go keys values table service.store loaded asked [] service sized)

-- A batch fails at its first key that has not 64 bytes: the keys before it have been counted as
-- hits and misses, one error is counted, no request and no latency is, and the store stays.
pub batch_get-reject :
    (go : GoFunction) (keys values : List Bytes) (service : KvServiceImpl go) (front : List Bytes)
    (bad : Bytes) (back : List Bytes) (elapsed : ℕ)
    → IsTable keys values
    → IsLoaded go service.store keys values
    → All IsKey front
    → length bad ≢ key_size
    → batch_get go (front ++ (bad ∷ back)) elapsed service ≡ (
      err (invalid_argument batch_key_message),
      record service { metrics = with_error (counted_all keys values front service.metrics) },
    )
unfolding batch_get
batch_get-reject go keys values service front bad back elapsed table loaded sized wrong = rw (
    batch_keys-reject go keys values table service.store loaded front bad back [] service sized
      wrong)

-- A batch whose keys all have 64 bytes adds their number to hits and misses together, and one to
-- the requests; the errors stay.
pub batch_get-total :
    (go : GoFunction) (keys values : List Bytes) (service : KvServiceImpl go) (asked : List Bytes)
    (elapsed : ℕ)
    → IsTable keys values
    → IsLoaded go service.store keys values
    → All IsKey asked
    → ((batch_get go asked elapsed service).1.metrics.hits_total
          + (batch_get go asked elapsed service).1.metrics.misses_total
        ≡ service.metrics.hits_total + service.metrics.misses_total + length asked)
      × ((batch_get go asked elapsed service).1.metrics.requests_total
          ≡ service.metrics.requests_total + 1)
      × ((batch_get go asked elapsed service).1.metrics.errors_total ≡ service.metrics.errors_total)
unfolding with_request
batch_get-total go keys values service asked elapsed table loaded sized =
    rw (batch_get-answers go keys values service asked elapsed table loaded sized) (
      counted_all-total keys values asked service.metrics,
      ap (λ (n : ℕ). n + 1) (counted_all-others keys values asked service.metrics).0,
      (counted_all-others keys values asked service.metrics).1,
    )
