-- ===== src/Server/Concurrent/Counted.antt =====
-- The counters of a server with concurrent requests.
use lowlatency.Common.{
  ℕ, ◌+◌, ◌≡◌, refl, arith, Bytes, List, [], ◌∷◌, ◌++◌, length, length-append, Option, some, none,
  ◌==◌, Bool-cases, inl, inr, Outcome, ok, bind_parts,
}
use lowlatency.Kv.Record.{key_size}
use lowlatency.Kv.GoFunction.{GoFunction}
use lowlatency.Kv.Store
use lowlatency.Server.Metrics
use lowlatency.Server.Metrics.{Metrics}
use lowlatency.Server.Service.{Status, KvServiceImpl}
use lowlatency.Server.Concurrent.{
  Point, get_started, get_loaded, get_looked_up, get_counted, get_timed, get_replied, batch_started,
  batch_round, batch_looked_up, batch_timed, batch_replied, rejecting, rejected, advance, reply,
  count_lookup, measured,
}

module _ {go : GoFunction} where
  -- The look-ups that a request has counted as a hit or a miss.
  unfoldable pub lookups : Point go → ℕ
  lookups (get_counted response) = 1
  lookups (get_timed response) = 1
  lookups (get_replied response) = 1
  lookups (batch_round store keys results) = length results
  lookups (batch_looked_up store found keys results) = length results
  lookups (batch_timed results) = length results
  lookups (batch_replied results) = length results
  lookups (rejecting status answered) = answered
  lookups (rejected status answered) = answered
  lookups p = 0

  -- Whether its latency has been recorded, whether it has been counted as a request, and whether it
  -- has been counted as an error.
  unfoldable pub latencies : Point go → ℕ
  latencies (get_timed response) = 1
  latencies (get_replied response) = 1
  latencies (batch_timed results) = 1
  latencies (batch_replied results) = 1
  latencies p = 0

  unfoldable pub successes : Point go → ℕ
  successes (get_replied response) = 1
  successes (batch_replied results) = 1
  successes p = 0

  unfoldable pub failures : Point go → ℕ
  failures (rejected status answered) = 1
  failures p = 0

  -- The sum over all requests.
  unfoldable pub total : (Point go → ℕ) → List (Point go) → ℕ
  total f [] = 0
  total f (p ∷ requests) = f p + total f requests

  pub total-append :
      (f : Point go → ℕ) (front back : List (Point go))
      → total f (front ++ back) ≡ total f front + total f back
  unfolding total
  total-append f [] back = omega arith
  total-append f (p ∷ front) back = omega (arith, total-append f front back)

  -- A step of one request moves the counters as it moves what the request has counted.
  pub record IsBalanced (before after : KvServiceImpl go) (p q : Point go) : Type 0 where
    pub looked_up :
        after.metrics.hits_total + after.metrics.misses_total + lookups p
        ≡ before.metrics.hits_total + before.metrics.misses_total + lookups q
    pub timed :
        length after.metrics.latency + latencies p ≡ length before.metrics.latency + latencies q
    pub succeeded :
        after.metrics.requests_total + successes p ≡ before.metrics.requests_total + successes q
    pub failed : after.metrics.errors_total + failures p ≡ before.metrics.errors_total + failures q

  ended :
      (before s after : KvServiceImpl go) (p r q : Point go)
      → ◌≡◌ {A = Outcome Status (KvServiceImpl go × Point go)} (ok (s, r)) (ok (after, q))
      → IsBalanced before s p r
      → IsBalanced before after p q
  ended before s after p r q same b =
      let same_service : s ≡ after = cc in
      let same_point : r ≡ q = cc in rw (← same_service, ← same_point) b

  looked_up-IsBalanced :
      (service : KvServiceImpl go) (found : Option Bytes) (p q : Point go)
      → lookups q ≡ lookups p + 1
      → latencies q ≡ latencies p
      → successes q ≡ successes p
      → failures q ≡ failures p
      → IsBalanced service (measured go (count_lookup found) service) p q
  unfolding Metrics.increment_hits Metrics.increment_misses
  looked_up-IsBalanced service none p q l t s f = omega arith
  looked_up-IsBalanced service (some value) p q l t s f = omega arith

  pub advance-IsBalanced :
      (elapsed : ℕ) (service after : KvServiceImpl go) (p q : Point go)
      → advance go elapsed service p ≡ ok (after, q)
      → IsBalanced service after p q
  unfolding advance lookups latencies successes failures Metrics.record_latency
      Metrics.increment_requests Metrics.increment_errors
  advance-IsBalanced elapsed service after (get_started key) q ran =
      elim (Bool-cases (length key == key_size)) [
        | inl sized ↦
            ended service service after (get_started key) _ q (rw sized at ran) (omega arith)
        | inr wrong ↦
            ended service service after (get_started key) _ q (rw wrong at ran) (omega arith)
      ]
  advance-IsBalanced elapsed service after (get_loaded key store) q ran =
      let (found, looked, left) = bind_parts (Store.get go {E = Status} store key) _ _ ran in
      ended service service after (get_loaded key store) (get_looked_up found) q left (omega arith)
  advance-IsBalanced elapsed service after (get_looked_up found) q ran =
      ended service _ after (get_looked_up found) _ q ran (
        looked_up-IsBalanced service found (get_looked_up found) (get_counted (reply found))
          (omega arith) refl refl refl)
  advance-IsBalanced elapsed service after (get_counted response) q ran =
      ended service _ after (get_counted response) _ q ran
        (omega (arith, length-append service.metrics.latency (elapsed ∷ [])))
  advance-IsBalanced elapsed service after (get_timed response) q ran =
      ended service _ after (get_timed response) _ q ran (omega arith)
  advance-IsBalanced elapsed service after (get_replied response) q ran =
      ended service _ after (get_replied response) _ q ran (omega arith)
  advance-IsBalanced elapsed service after (batch_started keys) q ran =
      ended service _ after (batch_started keys) _ q ran (omega arith)
  advance-IsBalanced elapsed service after (batch_round store [] results) q ran =
      ended service _ after (batch_round store [] results) _ q ran
        (omega (arith, length-append service.metrics.latency (elapsed ∷ [])))
  advance-IsBalanced elapsed service after (batch_round store (key ∷ keys) results) q ran =
      elim (Bool-cases (length key == key_size)) [
        | inl sized ↦
            let (found, looked, left) =
              bind_parts (Store.get go {E = Status} store key) _ _ (rw sized at ran) in
            ended service service after (batch_round store (key ∷ keys) results)
              (batch_looked_up store found keys results) q left (omega arith)
        | inr wrong ↦
            ended service service after (batch_round store (key ∷ keys) results) _ q
              (rw wrong at ran) (omega arith)
      ]
  advance-IsBalanced elapsed service after (batch_looked_up store found keys results) q ran =
      ended service _ after (batch_looked_up store found keys results) _ q ran (
        looked_up-IsBalanced service found (batch_looked_up store found keys results)
          (batch_round store keys (results ++ (reply found ∷ [])))
          (omega (arith, length-append results (reply found ∷ []))) refl refl refl)
  advance-IsBalanced elapsed service after (batch_timed results) q ran =
      ended service _ after (batch_timed results) _ q ran (omega arith)
  advance-IsBalanced elapsed service after (batch_replied results) q ran =
      ended service _ after (batch_replied results) _ q ran (omega arith)
  advance-IsBalanced elapsed service after (rejecting status answered) q ran =
      ended service _ after (rejecting status answered) _ q ran (omega arith)
  advance-IsBalanced elapsed service after (rejected status answered) q ran =
      ended service _ after (rejected status answered) _ q ran (omega arith)
