-- ===== src/Server/Concurrent/Totals.antt =====
-- What the counters of the server show of its requests, at any time and when all are replied to.
use lowlatency.Common.{ℕ, ◌+◌, ◌≡◌, refl, sym, ap, ◌∙◌, arith, List, [], ◌∷◌, ◌++◌, length, All}
use lowlatency.Kv.GoFunction.{GoFunction}
use lowlatency.Kv.Store.{KvStore}
use lowlatency.Server.Metrics
use lowlatency.Server.Service
use lowlatency.Server.Service.{reload}
use lowlatency.Server.Concurrent.{
  Point, get_started, get_loaded, get_looked_up, get_counted, get_timed, get_replied, batch_started,
  batch_round, batch_looked_up, batch_timed, batch_replied, rejecting, rejected, Server, Step,
  get_arrives, batch_arrives, swap, turn, Reach, here, next, started,
}
use lowlatency.Server.Concurrent.Counted.{
  lookups, latencies, successes, failures, total, total-append, advance-IsBalanced,
}

module _ {go : GoFunction} where
  -- The counters are the sums over the requests.
  record IsCounted (w : Server go) : Type 0 where
    looked_up :
        w.service.metrics.hits_total + w.service.metrics.misses_total ≡ total lookups w.requests
    timed : length w.service.metrics.latency ≡ total latencies w.requests
    succeeded : w.service.metrics.requests_total ≡ total successes w.requests
    failed : w.service.metrics.errors_total ≡ total failures w.requests

  turned :
      (f : Point go → ℕ) (before after : ℕ) (requests front back : List (Point go)) (p q : Point go)
      → requests ≡ front ++ (p ∷ back)
      → before ≡ total f requests
      → after + f p ≡ before + f q
      → after ≡ total f (front ++ (q ∷ back))
  unfolding total
  turned f before after requests front back p q split counted moved =
      let was : total f requests ≡ total f front + (f p + total f back) =
        ap (total f) split ∙ total-append f front (p ∷ back) in
      omega (arith, total-append f front (q ∷ back))

  Step-IsCounted : {w v : Server go} → Step go w v → IsCounted w → IsCounted v
  unfolding total lookups latencies successes failures reload
  Step-IsCounted (get_arrives w key) c = omega (arith, c.looked_up, c.timed, c.succeeded, c.failed)
  Step-IsCounted (batch_arrives w keys) c =
      omega (arith, c.looked_up, c.timed, c.succeeded, c.failed)
  Step-IsCounted (swap w new_store) c = record {
    looked_up = c.looked_up;
    timed = c.timed;
    succeeded = c.succeeded;
    failed = c.failed;
  }
  Step-IsCounted (turn w elapsed front back p q after split ran) c =
      let b = advance-IsBalanced elapsed w.service after p q ran in
      record {
        looked_up = turned lookups _ _ w.requests front back p q split c.looked_up b.looked_up;
        timed = turned latencies _ _ w.requests front back p q split c.timed b.timed;
        succeeded = turned successes _ _ w.requests front back p q split c.succeeded b.succeeded;
        failed = turned failures _ _ w.requests front back p q split c.failed b.failed;
      }

  Reach-IsCounted : {start w : Server go} → IsCounted start → Reach go start w → IsCounted w
  Reach-IsCounted c here = c
  Reach-IsCounted c (next r st) = Step-IsCounted st (Reach-IsCounted c r)

  -- A request that has been replied to, with a response or an error.
  abbrev pub IsReplied : Point go → Type 0
  IsReplied p = successes p + failures p ≡ 1

  replied_total :
      (requests : List (Point go))
      → All IsReplied requests
      → total successes requests + total failures requests ≡ length requests
  unfolding total
  replied_total [] all = omega arith
  replied_total (p ∷ requests) (one, all) = omega (arith, replied_total requests all)

  replied_timed : (p : Point go) → IsReplied p → latencies p ≡ successes p
  unfolding latencies successes failures
  replied_timed (get_started key) r = absurd (omega arith)
  replied_timed (get_loaded key store) r = absurd (omega arith)
  replied_timed (get_looked_up found) r = absurd (omega arith)
  replied_timed (get_counted response) r = absurd (omega arith)
  replied_timed (get_timed response) r = absurd (omega arith)
  replied_timed (get_replied response) r = refl
  replied_timed (batch_started keys) r = absurd (omega arith)
  replied_timed (batch_round store keys results) r = absurd (omega arith)
  replied_timed (batch_looked_up store found keys results) r = absurd (omega arith)
  replied_timed (batch_timed results) r = absurd (omega arith)
  replied_timed (batch_replied results) r = refl
  replied_timed (rejecting status answered) r = absurd (omega arith)
  replied_timed (rejected status answered) r = refl

  replied_latencies :
      (requests : List (Point go))
      → All IsReplied requests
      → total latencies requests ≡ total successes requests
  unfolding total
  replied_latencies [] all = refl
  replied_latencies (p ∷ requests) (one, all) =
      omega (arith, replied_timed p one, replied_latencies requests all)

  started-IsCounted : (store : KvStore go) → IsCounted (started go store)
  unfolding started Service.new Metrics.new total
  started-IsCounted store = omega arith

-- At any time, however the steps of the requests and reloads interleave, each counter of the server
-- is the sum of what its requests have counted: hits and misses together the look-ups that were
-- answered, the histogram the latencies, and the requests and the errors those that were replied
-- to.
pub started-total :
    (go : GoFunction) (store : KvStore go) {w : Server go}
    → Reach go (started go store) w
    → (w.service.metrics.hits_total + w.service.metrics.misses_total ≡ total lookups w.requests)
      × (length w.service.metrics.latency ≡ total latencies w.requests)
      × (w.service.metrics.requests_total ≡ total successes w.requests)
      × (w.service.metrics.errors_total ≡ total failures w.requests)
started-total go store run =
    let c = Reach-IsCounted (started-IsCounted store) run in
    (c.looked_up, c.timed, c.succeeded, c.failed)

-- When all requests have been replied to, each has been counted once, as a request with its latency
-- or as an error, however their steps and reloads interleaved.
pub replied-total :
    (go : GoFunction) (store : KvStore go) {w : Server go}
    → Reach go (started go store) w
    → All IsReplied w.requests
    → (w.service.metrics.requests_total + w.service.metrics.errors_total ≡ length w.requests)
      × (length w.service.metrics.latency ≡ w.service.metrics.requests_total)
replied-total go store run all =
    let c = Reach-IsCounted (started-IsCounted store) run in
    (
      omega (arith, c.succeeded, c.failed, replied_total _ all),
      c.timed ∙ replied_latencies _ all ∙ sym c.succeeded,
    )
