-- ===== src/Kv/Store/Sample.antt =====
-- What the look-ups of a sample of keys count, in a store that answers every key.
use lowlatency.Common.{
  ℕ, ◌+◌, ◌*◌, ◌^◌, ◌≤◌, ◌<◌, ◌≡◌, arith, Bytes, List, [], ◌∷◌, length, length-map, map, min, sum,
  Option, if◌then◌else◌, ok,
}
use lowlatency.Common.Choice.{Choice, IsChoice}
use lowlatency.Kv.GoFunction.{GoFunction, Answers}
use lowlatency.Kv.Header
use lowlatency.Kv.Header.{Header}
use lowlatency.Kv.Record.{record_size}
use lowlatency.Kv.Store.{KvStore, open_bytes, get, iter, is_some}
use lowlatency.Kv.Store.Accepted.{open_bytes-get-iter}

-- Whether a key is found, and whether it is not.
unfoldable pub found : (Bytes → Option Bytes) → Bytes → ℕ
unfolding is_some
found answer key = if is_some (answer key) then 1 else 0

unfoldable pub lost : (Bytes → Option Bytes) → Bytes → ℕ
unfolding is_some
lost answer key = if is_some (answer key) then 0 else 1

pub lost_bound : (answer : Bytes → Option Bytes) (key : Bytes) → lost answer key ≤ 1
unfolding lost
lost_bound answer key = ground arith

pub losses_bound :
    (answer : Bytes → Option Bytes) (sample : List Bytes) → sum (lost answer) sample ≤ length sample
losses_bound answer [] = omega arith
losses_bound answer (key ∷ sample) =
    omega (arith, lost_bound answer key, losses_bound answer sample)

abbrev pub keys_of : List (Bytes × Bytes) → List Bytes
keys_of = map (λ p. p.0)

-- The sample of the keys that is drawn.
abbrev pub drawn : Choice → List (Bytes × Bytes) → ℕ → List Bytes
drawn choose pairs sample_size = choose (keys_of pairs) (min sample_size (length (keys_of pairs)))

pub length-drawn :
    (choose : Choice) (pairs : List (Bytes × Bytes)) (sample_size : ℕ)
    → IsChoice choose
    → length (drawn choose pairs sample_size) ≤ length pairs
length-drawn choose pairs sample_size fair = omega (
  arith,
  fair.as_many (keys_of pairs) (min sample_size (length (keys_of pairs))),
  length-map pairs (λ (p : Bytes × Bytes). p.0),
)

-- The answers of a store that was opened from a file with its data section below 2^64, and with a
-- hash function that panics at no key.
pub open_bytes-answers :
    (E : Type 0) (go : GoFunction) (bytes : Bytes) (h : Header) (s : KvStore go)
    → length bytes < 2 ^ 64
    → Header.from_bytes bytes ≡ ok h
    → open_bytes go bytes ≡ ok s
    → h.data_offset + h.record_count * record_size < 2 ^ 64
    → Answers go s.mphf.function
    → (pairs : List (Bytes × Bytes)) × (iter go {E = E} s ≡ ok pairs)
      × (length pairs ≡ h.record_count)
      × (answer : Bytes → Option Bytes) × ((key : Bytes) → get go {E = E} s key ≡ ok (answer key))
open_bytes-answers E go bytes h s small parsed opens straight answers =
    let total =
      λ (key : Bytes). open_bytes-get-iter E go bytes h s key small parsed opens straight answers in
    let (pairs, ran, many) = (total []).1 in
    (pairs, ran, many, λ key. (total key).0.0, λ key. (total key).0.1)
