-- ===== src/Server/Metrics/Registry.antt =====
-- crates/kv-server/src/metrics.rs: how the instruments are made and registered, and the text of the
-- registry.
pub mod Registered
use lowlatency.Common.{
  ℕ, Bytes, Text, List, [], ◌∷◌, Bool, true, false, ◌&&◌, ltb, leb, ◌==◌, Option, some, none,
  Outcome, ok, err, panic, ◌>>=◌, if◌then◌else◌,
}
use lowlatency.Common.Format.{codes}
use lowlatency.Server.Metrics.{Metrics}

-- The crate `prometheus`: counters and histograms with a name and a help text, the buckets of a
-- histogram as numbers of 10 microseconds; registries; and the text of a registry, from what its
-- instruments show.
pub record Prometheus : Type 1 where
  pub Registry : Type 0
  pub Collector : Type 0
  pub empty : Registry
  pub int_counter : Text → Text → Outcome Text Collector
  pub histogram : Text → Text → List ℕ → Outcome Text Collector
  pub register : Collector → Registry → Outcome Text Registry
  pub encode_text : Registry → Metrics → Outcome Text Bytes

-- The instruments of `Metrics`, and the registry that knows them.
pub record Instruments (p : Prometheus) : Type 0 where
  pub registry : p.Registry
  pub requests_total : p.Collector
  pub hits_total : p.Collector
  pub misses_total : p.Collector
  pub errors_total : p.Collector
  pub latency : p.Collector

-- 10us, 50us, 100us, 500us, 1ms, 2ms, 5ms, 10ms, 50ms and 100ms.
abbrev pub buckets : List ℕ
buckets = 1 ∷ 5 ∷ 10 ∷ 50 ∷ 100 ∷ 200 ∷ 500 ∷ 1000 ∷ 5000 ∷ 10000 ∷ []

-- `result.unwrap()`
abbrev pub unwrap_ok {ℓ κ} : {E : Type ℓ} {F : Type 0} {A : Type κ} → Outcome F A → Outcome E A
unwrap_ok (ok a) = ok a
unwrap_ok (err e) = panic
unwrap_ok panic = panic

-- `Metrics::new`
unfoldable pub new_instruments {ℓ} : {E : Type ℓ} (p : Prometheus) → Outcome E (Instruments p)
new_instruments p = do
  requests_total ←
      unwrap_ok (p.int_counter (codes "kv_requests_total") (codes "Total number of KV requests"))
  hits_total ←
      unwrap_ok (p.int_counter (codes "kv_hits_total") (codes "Total number of cache hits"))
  misses_total ←
      unwrap_ok (p.int_counter (codes "kv_misses_total") (codes "Total number of cache misses"))
  errors_total ←
      unwrap_ok (p.int_counter (codes "kv_errors_total") (codes "Total number of errors"))
  latency ← unwrap_ok (
      p.histogram (codes "kv_request_latency_seconds") (codes "Request latency in seconds") buckets)
  with_requests ← unwrap_ok (p.register requests_total p.empty)
  with_hits ← unwrap_ok (p.register hits_total with_requests)
  with_misses ← unwrap_ok (p.register misses_total with_hits)
  with_errors ← unwrap_ok (p.register errors_total with_misses)
  registry ← unwrap_ok (p.register latency with_errors)
  ok (record {
    registry = registry;
    requests_total = requests_total;
    hits_total = hits_total;
    misses_total = misses_total;
    errors_total = errors_total;
    latency = latency;
  })

pub between : ℕ → ℕ → ℕ → Bool
between low high b = leb low b && leb b high

-- The bounds of the bytes that follow the first byte of a character in UTF-8.
pub follows : ℕ → Option (List (ℕ × ℕ))
unfolding between
follows b =
    if ltb b 128
    then some []
    else if between 194 223 b
    then some ((128, 191) ∷ [])
    else if b == 224
    then some ((160, 191) ∷ ((128, 191) ∷ []))
    else if b == 237
    then some ((128, 159) ∷ ((128, 191) ∷ []))
    else if between 225 239 b
    then some ((128, 191) ∷ ((128, 191) ∷ []))
    else if b == 240
    then some ((144, 191) ∷ ((128, 191) ∷ ((128, 191) ∷ [])))
    else if between 241 243 b
    then some ((128, 191) ∷ ((128, 191) ∷ ((128, 191) ∷ [])))
    else if b == 244
    then some ((128, 143) ∷ ((128, 191) ∷ ((128, 191) ∷ [])))
    else none

continued : Option (List (ℕ × ℕ)) → (List (ℕ × ℕ) → Bool) → Bool
continued none rest = false
continued (some bounds) rest = rest bounds

-- Whether bytes are UTF-8, when those within the bounds are still to come of a character.
unfoldable pub is_utf8 : List (ℕ × ℕ) → Bytes → Bool
unfolding follows continued between
is_utf8 [] [] = true
is_utf8 (bound ∷ bounds) [] = false
is_utf8 [] (b ∷ bytes) = continued (follows b) (λ bounds. is_utf8 bounds bytes)
is_utf8 ((low, high) ∷ bounds) (b ∷ bytes) = between low high b && is_utf8 bounds bytes

-- `String::from_utf8(buffer).unwrap()`
unfoldable pub from_utf8 {ℓ} : {E : Type ℓ} → Bytes → Outcome E Text
unfolding is_utf8
from_utf8 buffer = if is_utf8 [] buffer then ok buffer else panic

-- `Metrics::encode`
unfoldable pub encode {ℓ} : {E : Type ℓ} (p : Prometheus) → Instruments p → Metrics → Outcome E Text
unfolding from_utf8
encode p instruments metrics = do
  buffer ← unwrap_ok (p.encode_text instruments.registry metrics)
  from_utf8 buffer
