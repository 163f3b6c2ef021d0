-- ===== src/Tests/Prometheus.antt =====
-- A small crate of metrics that does as is documented, and the theorems about the instruments with
-- it.
use lowlatency.Common.{
  ◌≡◌, refl, Text, List, [], ◌∷◌, ◌++◌, length, map, Bool, true, false, ◌&&◌, ◌||◌, ltb, lt→ltb,
  bytes_eq, bytes_eq→eq, Bool-cases, inl, inr, Elem, All, Outcome, ok, err, if◌then◌else◌,
}
use lowlatency.Kv.Error.{Error}
use lowlatency.Server.Metrics
use lowlatency.Server.Metrics.{Metrics}
use lowlatency.Server.Metrics.Registry.{Prometheus, Instruments, new_instruments, encode}
use lowlatency.Server.Metrics.Registry.Registered.{
  is_metric_name, is_increasing, IsAscii, IsDocumented, new_instruments-encode,
}

-- The name and the help text of a collector.
pub record Described : Type 0 where
  name : Text
  help : Text

pub is_known : Text → List Described → Bool
is_known name [] = false
is_known name (d ∷ known) = bytes_eq d.name name || is_known name known

-- Names and help texts, without the values.
pub texts : List Described → Text
texts [] = []
texts (d ∷ known) = d.name ++ (d.help ++ texts known)

abbrev described : Bool → Text → Text → Outcome Text Described
described accepted name help =
    if accepted && (is_metric_name name && ltb 0 (length help))
    then ok (record { name = name; help = help })
    else err name

abbrev pub small : Prometheus
small = record {
  Registry = List Described;
  Collector = Described;
  empty = [];
  int_counter = λ name help. described true name help;
  histogram = λ name help bounds. described (is_increasing bounds) name help;
  register = λ c known. if is_known c.name known then err c.name else ok (c ∷ known);
  encode_text = λ known metrics. ok (texts known);
}

fresh-is_known :
    (name : Text) (known : List Described)
    → (Elem name (map (λ (d : Described). d.name) known) → ⊥)
    → is_known name known ≡ false
unfolding is_known
fresh-is_known name [] fresh = refl
fresh-is_known name (d ∷ known) fresh = elim (Bool-cases (bytes_eq d.name name)) [
  | inl same ↦ absurd (fresh (inl (bytes_eq→eq d.name name same)))
  | inr other ↦ rw other (fresh-is_known name known (λ e. fresh (inr e)))
]

append-All : (xs ys : Text) → All IsAscii xs → All IsAscii ys → All IsAscii (xs ++ ys)
append-All [] ys all behind = behind
append-All (x ∷ xs) ys (one, all) behind = (one, append-All xs ys all behind)

texts-All :
    (known : List Described)
    → All (λ (d : Described). All IsAscii d.name × All IsAscii d.help) known
    → All IsAscii (texts known)
unfolding texts
texts-All [] all = tt
texts-All (d ∷ known) ((name, help), all) =
    append-All d.name (d.help ++ texts known) name
      (append-All d.help (texts known) help (texts-All known all))

pub small-IsDocumented : IsDocumented small
small-IsDocumented = record {
  name_of = λ c. c.name;
  help_of = λ c. c.help;
  known = λ r. r;
  counts = λ name help named some_help.
      (record { name = name; help = help }, rw (named, lt→ltb 0 _ some_help) refl, refl, refl);
  observes = λ name help bounds named some_help increasing. (
    record { name = name; help = help },
    rw (increasing, named, lt→ltb 0 _ some_help) refl,
    refl,
    refl,
  );
  known-empty = refl;
  registers = λ c r fresh. (c ∷ r, rw (fresh-is_known c.name r fresh) refl, refl);
  encodes = λ r metrics plain. (texts r, refl, texts-All r plain);
}

new_instruments-encode_example :
    (i : Instruments small) × (new_instruments {E = Error} small ≡ ok i)
    × (small-IsDocumented.known i.registry
        ≡ i.latency
          ∷ (i.errors_total ∷ (i.misses_total ∷ (i.hits_total ∷ (i.requests_total ∷ [])))))
    × (text : Text) × (encode {E = Error} small i Metrics.new ≡ ok text)
    × All IsAscii text
new_instruments-encode_example = new_instruments-encode Error small Metrics.new small-IsDocumented
