-- ===== src/Kv/Store/Accepted.antt =====
-- What every file that `open` accepts provides, a damaged or forged one included.
use lowlatency.Common.{
  ℕ, zero, suc, ◌+◌, ◌*◌, ◌^◌, ◌≤◌, ◌<◌, ◌≡◌, ◌⊎◌, inl, inr, refl, ap, ◌∙◌, arith, Bytes, List, [],
  ◌∷◌, length, Option, some, none, false, leb, leb→le, ◌==◌, ==_iff, Bool-cases, add64, mul64, ok,
  panic, index_range, index_range_panics, bind_parts, guard, guard_holds, ◌>>◌,
}
use native.Mathlib.Decide.{dec_lt}
use lowlatency.Kv.Error.{Error}
use lowlatency.Kv.Header
use lowlatency.Kv.Header.{Header, header_size}
use lowlatency.Kv.Record.{Record, record_size}
use lowlatency.Kv.GoFunction.{GoFunction, Answers}
use lowlatency.Kv.Mphf
use lowlatency.Kv.Mphf.{Mphf}
use lowlatency.Kv.Mphf.Slots.{get-some, get-total}
use lowlatency.Kv.Store.{KvStore, open_bytes, get_record, get_at, get, iter_from, iter, matching}
use lowlatency.Kv.Store.Lookup.{record_at, get_record_inside}

-- What `open` has checked.
record IsAccepted (go : GoFunction) (bytes : Bytes) (h : Header) (s : KvStore go) : Type 0 where
  parsed : Header.from_bytes bytes ≡ ok h
  mapped : s.mmap ≡ bytes
  indexed : s.mphf.key_count ≡ h.record_count
  counted : s.record_count ≡ h.record_count
  placed : s.data_offset ≡ h.data_offset
  fits : add64 h.data_offset (mul64 h.record_count record_size) ≤ length bytes

-- The checks and the result of `open` behind the header and the index.
finished-IsAccepted :
    (go : GoFunction) (bytes : Bytes) (h : Header) (m : Mphf go) (s r : KvStore go) (e f : Error)
    → Header.from_bytes bytes ≡ ok h
    → r.mmap ≡ bytes
    → r.mphf ≡ m
    → r.record_count ≡ h.record_count
    → r.data_offset ≡ h.data_offset
    → (do
      guard (m.key_count == h.record_count) e
      guard (leb (add64 h.data_offset (mul64 h.record_count record_size)) (length bytes)) f
      ok r)
      ≡ ok s
    → IsAccepted go bytes h s
finished-IsAccepted go bytes h m s r e f parsed mapped index counted placed ends =
    let (same_count, after_count) = guard_holds (m.key_count == h.record_count) e _ s ends in
    let (room, made) =
      guard_holds (leb (add64 h.data_offset (mul64 h.record_count record_size)) (length bytes)) f _
        s after_count in
    let same : r ≡ s = cc in
    let held : m.key_count ≡ h.record_count = (==_iff _ _).0 same_count in
    rw (← same) (record {
      parsed = parsed;
      mapped = mapped;
      indexed = ap (λ (x : Mphf go). x.key_count) index ∙ held;
      counted = counted;
      placed = placed;
      fits = leb→le _ _ room;
    })

open_bytes-IsAccepted :
    (go : GoFunction) (bytes : Bytes) (s : KvStore go)
    → open_bytes go bytes ≡ ok s
    → (h : Header) × IsAccepted go bytes h s
unfolding open_bytes Mphf.len
open_bytes-IsAccepted go bytes s opens =
    let (h, parsed, after_header) = bind_parts (Header.from_bytes bytes) _ s opens in
    let (index, taken, after_index) =
      bind_parts (index_range {E = Error} header_size (add64 header_size h.mphf_size) bytes) _ s
        after_header in
    let (m, read, after_mphf) = bind_parts (Mphf.deserialize go index) _ s after_index in
    (h, finished-IsAccepted go bytes h m s _ _ _ parsed refl refl refl refl after_mphf)

module _ (E : Type 0) (go : GoFunction) (bytes : Bytes) (h : Header) (s : KvStore go)
    (accepted : IsAccepted go bytes h s)
    (straight : h.data_offset + h.record_count * record_size < 2 ^ 64)
    (small : length bytes < 2 ^ 64) where
  slot_read :
      (slot : ℕ) → slot < s.record_count → (r : Record) × (get_record go {E = E} s slot ≡ ok r)
  slot_read slot low =
      let whole : add64 h.data_offset (mul64 h.record_count record_size)
          ≡ h.data_offset + h.record_count * record_size =
        omega (arith, straight) in
      let sized : length s.mmap ≡ length bytes = ap length accepted.mapped in
      (
        record_at (s.data_offset + slot * record_size) s.mmap,
        get_record_inside go s slot
            (omega (arith, accepted.counted, accepted.placed, accepted.fits, whole, sized))
            (omega arith),
      )

  get_at_total :
      (key : Bytes) (found : Option ℕ)
      → (value : Option Bytes) × (get_at go {E = E} s key found ≡ ok value)
  unfolding get_at
  get_at_total key none = (none, refl)
  get_at_total key (some slot) = elim (Bool-cases (leb s.record_count slot)) [
    | inl beyond ↦ (none, rw beyond refl)
    | inr inside ↦
        let (r, read) = slot_read slot (ground arith) in (matching key r, rw (inside, read) refl)
  ]

  iter_from_total :
      (left slot : ℕ)
      → slot + left ≤ s.record_count
      → (pairs : List (Bytes × Bytes)) × (iter_from go {E = E} s left slot ≡ ok pairs)
        × (length pairs ≡ left)
  unfolding iter_from
  iter_from_total zero slot room = ([], refl, refl)
  iter_from_total (suc left) slot room =
      let (r, read) = slot_read slot (omega arith) in
      let (rest, ran, many) = iter_from_total left (slot + 1) (omega arith) in
      ((r.key, r.value) ∷ rest, rw (read, ran) refl, ap suc many)

-- A file of less than 2^64 bytes, of any contents, that `open` accepts and whose header places the
-- end of the data section below 2^64, where the hash function that was read from it panics at no
-- key: no look-up of any key panics, and the iteration gives as many entries as the header counts.
pub open_bytes-get-iter :
    (E : Type 0) (go : GoFunction) (bytes : Bytes) (h : Header) (s : KvStore go) (key : Bytes)
    → length bytes < 2 ^ 64
    → Header.from_bytes bytes ≡ ok h
    → open_bytes go bytes ≡ ok s
    → h.data_offset + h.record_count * record_size < 2 ^ 64
    → Answers go s.mphf.function
    → ((value : Option Bytes) × (get go {E = E} s key ≡ ok value))
      × ((pairs : List (Bytes × Bytes)) × (iter go {E = E} s ≡ ok pairs)
          × (length pairs ≡ h.record_count))
unfolding get iter
open_bytes-get-iter E go bytes h s key small parsed opens straight total =
    let (h', accepted') = open_bytes-IsAccepted go bytes s opens in
    let same : h' ≡ h = cc (parsed, accepted'.parsed) in
    let accepted : IsAccepted go bytes h s = rw (← same) accepted' in
    let (pairs, ran, many) =
      iter_from_total E go bytes h s accepted straight small s.record_count 0 (omega arith) in
    (
      rw (get-total {E = E} go s.mphf key total)
          (get_at_total E go bytes h s accepted straight small key (Mphf.slot_of go s.mphf key)),
      (pairs, ran, many ∙ accepted.counted),
    )

-- A record that begins behind the end ends there too, or wraps.
outside :
    (offset size : ℕ)
    → size ≤ offset
    → (add64 offset record_size < offset) ⊎ (size < add64 offset record_size)
outside offset size beyond = elim (dec_lt (add64 offset record_size) offset) [
  | yes wraps ↦ inl wraps
  | no straight ↦ inr (omega arith)
]

-- When `open` has accepted a file whose header counts some records and places the data section
-- beyond the file, a look-up of a key that leads to the first record panics.
pub get-open_bytes_panics :
    (go : GoFunction) (bytes : Bytes) (h : Header) (s : KvStore go) (key : Bytes)
    → Header.from_bytes bytes ≡ ok h
    → open_bytes go bytes ≡ ok s
    → length bytes ≤ h.data_offset
    → h.data_offset < 2 ^ 64
    → Mphf.slot_of go s.mphf key ≡ some 0
    → 0 < h.record_count
    → get go {E = Error} s key ≡ panic
unfolding get get_at get_record
get-open_bytes_panics go bytes h s key parsed opens beyond word at some_records =
    let (h', accepted') = open_bytes-IsAccepted go bytes s opens in
    let same : h' ≡ h = cc (parsed, accepted'.parsed) in
    let accepted : IsAccepted go bytes h s = rw (← same) accepted' in
    let start : add64 s.data_offset (mul64 0 record_size) ≡ s.data_offset =
      omega (arith, accepted.placed) in
    let sized : length s.mmap ≡ length bytes = ap length accepted.mapped in
    let counted : leb s.record_count 0 ≡ false = ground (arith, accepted.counted) in
    rw
      (
        get-some {E = Error} go s.mphf key 0 at,
        counted,
        start,
        index_range_panics {E = Error} s.data_offset (add64 s.data_offset record_size) s.mmap
            (outside s.data_offset (length s.mmap) (omega (arith, accepted.placed))),
      )
      refl
