-- ===== src/Builder/Inputs/Random/Built.antt =====
-- The `random` command, from the generator's bytes to the store that is opened from its output.
use lowlatency.Common.{ℕ, ◌^◌, ◌≤◌, ◌<◌, ◌≡◌, ap, ◌∙◌, arith, Bytes, length, Option, some, ok}
use lowlatency.Builder.Snapshot
use lowlatency.Builder.Snapshot.{Output}
use lowlatency.Kv.Error.{Error}
use lowlatency.Kv.GoFunction.{GoFunction, IsLawful}
use lowlatency.Kv.Header.{max_records}
use lowlatency.Kv.Store
use lowlatency.Kv.Store.{KvStore, open_bytes}
use lowlatency.Builder.Snapshot.Built.{IsBuilt, build-IsBuilt}
use lowlatency.Builder.Snapshot.RoundTrip.{build-open-get}
use lowlatency.Builder.Snapshot.Layout.{all_succeed}
use lowlatency.Builder.Inputs.{build_random, random_key, random_value, random_records}
use lowlatency.Builder.Inputs.Random.{random_records-IsTable, random_records-lookup}

-- What the command leaves: the random records, built.
pub build_random-IsBuilt :
    (go : GoFunction) (sha256 : Bytes → Bytes) (timestamp : ℕ) (fills : ℕ → Bytes × Bytes)
    (count : ℕ) (o : Output)
    → IsLawful go
    → ((section : Bytes) → length (sha256 section) ≡ 32)
    → timestamp < 2 ^ 64
    → 0 < count
    → count ≤ max_records
    → (after : Output) × (build_random go sha256 all_succeed timestamp fills count o
        ≡ (ok tt, after))
      × IsBuilt go sha256 timestamp (random_records fills count 0 Snapshot.new) after
unfolding build_random
build_random-IsBuilt go sha256 timestamp fills count o lawful digest clock few many =
    let made = random_records fills count 0 Snapshot.new in
    let (table, counted) = random_records-IsTable fills count (omega arith) in
    let (after, ran, built) = build-IsBuilt go sha256 timestamp made o lawful (record {
      digest_sized = digest;
      timestamp_IsU64 = clock;
      table = table;
      some_keys = omega (arith, counted);
      few_keys = omega (arith, counted);
    }) in
    (after, rw ran, built)

-- A SHA-256 that gives 32 bytes, a clock that fits 64 bits, and from 1 to 10^10 records: when all
-- system calls succeed, the command `random` succeeds and leaves a file that opens. The store has
-- that many records, and it answers the key made for an index below the count with the value made
-- for the index.
pub build_random-open-get :
    (go : GoFunction) (sha256 : Bytes → Bytes) (timestamp : ℕ) (fills : ℕ → Bytes × Bytes)
    (count i : ℕ) (o : Output)
    → IsLawful go
    → ((section : Bytes) → length (sha256 section) ≡ 32)
    → timestamp < 2 ^ 64
    → 0 < count
    → count ≤ max_records
    → i < count
    → (after : Output) × (build_random go sha256 all_succeed timestamp fills count o
        ≡ (ok tt, after))
      × (s : KvStore go) × (open_bytes go after.contents ≡ ok s)
      × (Store.len go s ≡ count)
      × (Store.get go {E = Error} s (random_key fills i) ≡ ok (some (random_value fills i)))
unfolding build_random Snapshot.len
build_random-open-get go sha256 timestamp fills count i o lawful digest clock few many low =
    let made = random_records fills count 0 Snapshot.new in
    let (table, counted) = random_records-IsTable fills count (omega arith) in
    let (after, ran, s, opens, sized, stamped, answers) =
      build-open-get go sha256 timestamp made o lawful (record {
        digest_sized = digest;
        timestamp_IsU64 = clock;
        table = table;
        some_keys = omega (arith, counted);
        few_keys = omega (arith, counted);
      }) in
    (
      after,
      rw ran,
      s,
      opens,
      sized ∙ counted,
      answers (random_key fills i)
          ∙ ap (λ (r : Option Bytes). ok r) (random_records-lookup fills count i (omega arith) low),
    )
