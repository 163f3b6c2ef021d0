-- ===== src/Server/Metrics.antt =====
-- crates/kv-server/src/metrics.rs: the counters and the latency histogram.
pub mod Registry
use lowlatency.Common.{ℕ, ◌+◌, List, [], ◌∷◌, ◌++◌}

-- A counter of the `prometheus` crate is the number of its increments; the histogram is the list of
-- what it observed, in nanoseconds, oldest first.
pub record Metrics : Type 0 where
  pub requests_total : ℕ
  pub hits_total : ℕ
  pub misses_total : ℕ
  pub errors_total : ℕ
  pub latency : List ℕ

unfoldable pub new : Metrics
new = record {
  requests_total = 0;
  hits_total = 0;
  misses_total = 0;
  errors_total = 0;
  latency = [];
}

unfoldable pub increment_requests : Metrics → Metrics
increment_requests m = record m { requests_total = m.requests_total + 1 }

unfoldable pub increment_hits : Metrics → Metrics
increment_hits m = record m { hits_total = m.hits_total + 1 }

unfoldable pub increment_misses : Metrics → Metrics
increment_misses m = record m { misses_total = m.misses_total + 1 }

unfoldable pub increment_errors : Metrics → Metrics
increment_errors m = record m { errors_total = m.errors_total + 1 }

unfoldable pub record_latency : ℕ → Metrics → Metrics
record_latency duration m = record m { latency = m.latency ++ (duration ∷ []) }
