-- ===== src/Server/Metrics/Registry/Registered.antt =====
-- The unwraps of `Metrics::new` and `Metrics::encode` do not fail.
use lowlatency.Common.{
  ℕ, ◌<◌, ◌≡◌, refl, ap, ◌∙◌, arith, Bytes, Text, List, [], ◌∷◌, length, map, Bool, true, false,
  ◌&&◌, ◌||◌, ltb, ◌==◌, Elem, All, ok, inl, inr, lt→ltb, Bool-cases, bytes_eq, eq→bytes_eq,
}
use lowlatency.Common.Format.{codes}
use lowlatency.Server.Metrics.{Metrics}
use lowlatency.Server.Metrics.Registry.{
  Prometheus, Instruments, buckets, new_instruments, between, follows, is_utf8, from_utf8, encode,
}

-- `[a-zA-Z_:][a-zA-Z0-9_:]*`
pub is_name_start : ℕ → Bool
unfolding between
is_name_start b = between 97 122 b || (between 65 90 b || ((b == 95) || (b == 58)))

unfoldable pub is_name_rest : Text → Bool
unfolding is_name_start between
is_name_rest [] = true
is_name_rest (b ∷ text) = (is_name_start b || between 48 57 b) && is_name_rest text

unfoldable pub is_metric_name : Text → Bool
unfolding is_name_rest is_name_start
is_metric_name [] = false
is_metric_name (b ∷ text) = is_name_start b && is_name_rest text

unfoldable pub is_increasing : List ℕ → Bool
is_increasing [] = true
is_increasing (a ∷ []) = true
is_increasing (a ∷ b ∷ bounds) = ltb a b && is_increasing (b ∷ bounds)

abbrev pub IsAscii : ℕ → Type 0
IsAscii b = b < 128

-- What the crate documents.
pub record IsDocumented (p : Prometheus) : Type 0 where
  pub name_of : p.Collector → Text
  pub help_of : p.Collector → Text
  pub known : p.Registry → List p.Collector
  pub counts :
      (name help : Text)
      → is_metric_name name ≡ true
      → 0 < length help
      → (c : p.Collector) × (p.int_counter name help ≡ ok c)
        × (name_of c ≡ name)
        × (help_of c ≡ help)
  pub observes :
      (name help : Text) (bounds : List ℕ)
      → is_metric_name name ≡ true
      → 0 < length help
      → is_increasing bounds ≡ true
      → (c : p.Collector) × (p.histogram name help bounds ≡ ok c)
        × (name_of c ≡ name)
        × (help_of c ≡ help)
  pub known-empty : known p.empty ≡ []
  pub registers :
      (c : p.Collector) (r : p.Registry)
      → (Elem (name_of c) (map name_of (known r)) → ⊥)
      → (after : p.Registry) × (p.register c r ≡ ok after) × (known after ≡ c ∷ known r)
  pub encodes :
      (r : p.Registry) (metrics : Metrics)
      → All (λ c. All IsAscii (name_of c) × All IsAscii (help_of c)) (known r)
      → (text : Bytes) × (p.encode_text r metrics ≡ ok text) × All IsAscii text

is_utf8-All : (text : Bytes) → All IsAscii text → is_utf8 [] text ≡ true
unfolding is_utf8 follows
is_utf8-All [] all = refl
is_utf8-All (b ∷ text) (low, all) = rw (lt→ltb b 128 low) (is_utf8-All text all)

unfoldable all_ascii : Text → Bool
all_ascii [] = true
all_ascii (b ∷ text) = ltb b 128 && all_ascii text

all_ascii-All : (text : Text) → all_ascii text ≡ true → All IsAscii text
unfolding all_ascii
all_ascii-All [] h = tt
all_ascii-All (b ∷ text) h = elim (Bool-cases (ltb b 128)) [
  | inl low ↦ (ground (arith, low), all_ascii-All text (rw low at h))
  | inr high ↦ absurd (cc (rw high at h))
]

-- The text of a collector is one whose bytes are tested.
described : (text given : Text) → given ≡ text → all_ascii text ≡ true → All IsAscii given
described text given same plain = rw same (all_ascii-All text plain)

fresh :
    (name : Text) (names : List Text)
    → All (λ n. bytes_eq n name ≡ false) names
    → Elem name names
    → ⊥
fresh name [] other e = e
fresh name (n ∷ names) (one, other) (inl same) = cc (one, eq→bytes_eq n name same)
fresh name (n ∷ names) (one, other) (inr e) = fresh name names other e

module _ (p : Prometheus) (doc : IsDocumented p) where
  -- A registration under a name that is not among those known.
  register_one :
      (c : p.Collector) (r : p.Registry) (name : Text) (names : List Text)
      → doc.name_of c ≡ name
      → map doc.name_of (doc.known r) ≡ names
      → All (λ n. bytes_eq n name ≡ false) names
      → (after : p.Registry) × (p.register c r ≡ ok after)
        × (doc.known after ≡ c ∷ doc.known r)
        × (map doc.name_of (doc.known after) ≡ name ∷ names)
  register_one c r name names called listed other =
      let (after, ran, knows) =
        doc.registers c r (λ e. fresh name names other (rw (listed, called) at e)) in
      (after, ran, knows, ap (map doc.name_of) knows ∙ λ i. called i ∷ listed i)

  -- Five collectors under the names of the metrics are registered one after the other.
  register_five :
      (requests hits misses errors latency : p.Collector)
      → doc.name_of requests ≡ codes "kv_requests_total"
      → doc.name_of hits ≡ codes "kv_hits_total"
      → doc.name_of misses ≡ codes "kv_misses_total"
      → doc.name_of errors ≡ codes "kv_errors_total"
      → doc.name_of latency ≡ codes "kv_request_latency_seconds"
      → (r1 r2 r3 r4 r5 : p.Registry) × (p.register requests p.empty ≡ ok r1)
        × (p.register hits r1 ≡ ok r2)
        × (p.register misses r2 ≡ ok r3)
        × (p.register errors r3 ≡ ok r4)
        × (p.register latency r4 ≡ ok r5)
        × (doc.known r5 ≡ latency ∷ (errors ∷ (misses ∷ (hits ∷ (requests ∷ [])))))
  unfolding bytes_eq
  register_five requests hits misses errors latency name_requests name_hits name_misses name_errors
        name_latency =
      let (r1, ran_requests, knows_requests, listed_requests) =
        register_one requests p.empty (codes "kv_requests_total") ([]) name_requests
          (ap (map doc.name_of) doc.known-empty) tt in
      let (r2, ran_hits, knows_hits, listed_hits) =
        register_one hits r1 (codes "kv_hits_total") (codes "kv_requests_total" ∷ []) name_hits
          listed_requests (refl, tt) in
      let (r3, ran_misses, knows_misses, listed_misses) =
        register_one misses r2 (codes "kv_misses_total")
          (codes "kv_hits_total" ∷ (codes "kv_requests_total" ∷ [])) name_misses listed_hits
          (refl, (refl, tt)) in
      let (r4, ran_errors, knows_errors, listed_errors) =
        register_one errors r3 (codes "kv_errors_total")
          (codes "kv_misses_total" ∷ (codes "kv_hits_total" ∷ (codes "kv_requests_total" ∷ [])))
          name_errors listed_misses (refl, (refl, (refl, tt))) in
      let (r5, ran_latency, knows_latency, listed_latency) =
        register_one latency r4 (codes "kv_request_latency_seconds")
          (codes "kv_errors_total"
            ∷ (codes "kv_misses_total"
                ∷ (codes "kv_hits_total" ∷ (codes "kv_requests_total" ∷ []))))
          name_latency listed_errors (refl, (refl, (refl, (refl, tt)))) in
      let knows : doc.known r5 ≡ latency ∷ (errors ∷ (misses ∷ (hits ∷ (requests ∷ [])))) =
        knows_latency
        ∙ ap (λ l. latency ∷ l)
            (knows_errors
              ∙ ap (λ l. errors ∷ l)
                  (knows_misses
                    ∙ ap (λ l. misses ∷ l)
                        (knows_hits
                          ∙ ap (λ l. hits ∷ l)
                              (knows_requests ∙ ap (λ l. requests ∷ l) doc.known-empty)))) in
      (r1, r2, r3, r4, r5, ran_requests, ran_hits, ran_misses, ran_errors, ran_latency, knows)

-- `Metrics::new` and `Metrics::encode` do not panic, when the crate `prometheus` does as it
-- documents: it accepts names of letters, digits, underscores and colons with a help text, buckets
-- that increase, and the registration of names that differ, and it writes ASCII for instruments
-- with ASCII texts. The registry then has the five instruments, and whatever they show it is
-- written as a text.
pub new_instruments-encode {ℓ} :
    (E : Type ℓ) (p : Prometheus) (metrics : Metrics) (doc : IsDocumented p)
    → (i : Instruments p) × (new_instruments {E = E} p ≡ ok i)
      × (doc.known i.registry
          ≡ i.latency
            ∷ (i.errors_total ∷ (i.misses_total ∷ (i.hits_total ∷ (i.requests_total ∷ [])))))
      × (text : Text) × (encode {E = E} p i metrics ≡ ok text)
      × All IsAscii text
unfolding new_instruments encode from_utf8 is_metric_name is_name_rest is_increasing is_name_start
    all_ascii
new_instruments-encode E p metrics doc =
    let (requests, made_requests, name_requests, help_requests) =
      doc.counts (codes "kv_requests_total") (codes "Total number of KV requests") refl
        (omega arith) in
    let (hits, made_hits, name_hits, help_hits) =
      doc.counts (codes "kv_hits_total") (codes "Total number of cache hits") refl (omega arith) in
    let (misses, made_misses, name_misses, help_misses) =
      doc.counts (codes "kv_misses_total") (codes "Total number of cache misses") refl
        (omega arith) in
    let (errors, made_errors, name_errors, help_errors) =
      doc.counts (codes "kv_errors_total") (codes "Total number of errors") refl (omega arith) in
    let (latency, made_latency, name_latency, help_latency) =
      doc.observes (codes "kv_request_latency_seconds") (codes "Request latency in seconds") buckets
        refl (omega arith) refl in
    let (r1, r2, r3, r4, r5, ran_requests, ran_hits, ran_misses, ran_errors, ran_latency, knows) =
      register_five p doc requests hits misses errors latency name_requests name_hits name_misses
        name_errors name_latency in
    let plain : All (λ c. All IsAscii (doc.name_of c) × All IsAscii (doc.help_of c))
        (doc.known r5) =
      rw knows (
        (described _ _ name_latency refl, described _ _ help_latency refl),
        (
          (described _ _ name_errors refl, described _ _ help_errors refl),
          (
            (described _ _ name_misses refl, described _ _ help_misses refl),
            (
              (described _ _ name_hits refl, described _ _ help_hits refl),
              ((described _ _ name_requests refl, described _ _ help_requests refl), tt),
            ),
          ),
        ),
      ) in
    let (text, wrote, ascii) = doc.encodes r5 metrics plain in
    (
      record {
        registry = r5;
        requests_total = requests;
        hits_total = hits;
        misses_total = misses;
        errors_total = errors;
        latency = latency;
      },
      rw
          (
            made_requests, made_hits, made_misses, made_errors, made_latency, ran_requests,
            ran_hits, ran_misses, ran_errors, ran_latency,
          )
          refl,
      knows,
      text,
      rw (wrote, is_utf8-All text ascii) refl,
      ascii,
    )
