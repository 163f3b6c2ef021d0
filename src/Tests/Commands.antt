-- ===== src/Tests/Commands.antt =====
-- The commands of crates/snapshot-builder/src/main.rs and crates/validator/src/main.rs, and the
-- iteration they share, at concrete inputs.
use lowlatency.Common.{
  sum, ◌==◌, if◌then◌else◌, err, bytes_eq, Text, ℕ, zero, suc, ◌≡◌, inl, inr, refl, arith, Bytes,
  List, [], ◌∷◌, map, take, replicate, length-take, some, Elem, All, IsByte, ok,
}
use lowlatency.Common.Choice.{Choice, IsChoice}
use lowlatency.Common.Format.{codes}
use lowlatency.Kv.Error.{Error}
use lowlatency.Kv.Store
use lowlatency.Kv.Store.{Disk, FilePath, KvStore, open_bytes, open_store}
use lowlatency.Kv.Store.Loaded.{lookup}
use lowlatency.Builder.Snapshot.{Output}
use lowlatency.Builder.Snapshot.Layout.{all_succeed}
use lowlatency.Builder.Inputs.{column, random_key, random_value, build_random}
use lowlatency.Builder.Inputs.Random.Built.{build_random-open-get}
use lowlatency.Builder.Inputs.Csv.{HasCells}
use lowlatency.Validator.Check.{message}
use lowlatency.Validator.Verify.{verify_expected, failed_message}
use lowlatency.Validator.Verify.Expected.{
  IsExpectation, pair_of, begins, hit, miss, verify_expected_counts,
}
use lowlatency.Tests.Hash.{places, places-IsLawful}
use lowlatency.Tests.Data.{
  key_of, two_keys, two_values, two-IsTable, digest, stamp, two-IsBuildable, no_file, two_file,
  two_opened, two_store, two-IsLoaded,
}

-- A generator that always fills in the same bytes.
abbrev pub steady : ℕ → Bytes × Bytes
steady i = (replicate 56 7, replicate 256 9)

build_random-open-get_example :
    (after : Output) × (build_random places digest all_succeed stamp steady 3 no_file
      ≡ (ok tt, after))
    × (s : KvStore places) × (open_bytes places after.contents ≡ ok s)
    × (Store.len places s ≡ 3)
    × (Store.get places {E = Error} s (random_key steady 2) ≡ ok (some (random_value steady 2)))
build_random-open-get_example =
    build_random-open-get places digest stamp steady 3 2 no_file places-IsLawful
      two-IsBuildable.digest_sized (omega arith) (omega arith) (omega arith) (omega arith)

abbrev pub disk : Disk
disk path = ok two_file

pub opens : (path : FilePath) → open_store places disk path ≡ ok two_store
unfolding open_store
opens path = two_opened.1

Elem-take : (n : ℕ) (xs : List Bytes) (x : Bytes) → Elem x (take n xs) → Elem x xs
Elem-take zero xs x e = absurd e
Elem-take (suc n) [] x e = absurd e
Elem-take (suc n) (y ∷ xs) x (inl e) = inl e
Elem-take (suc n) (y ∷ xs) x (inr e) = inr (Elem-take n xs x e)

-- The choice of the first elements.
abbrev pub firsts : Choice
firsts xs n = take n xs

pub firsts-IsChoice : IsChoice firsts
firsts-IsChoice = record {
  chosen = λ xs n x e. Elem-take n xs x e;
  as_many = λ xs n. length-take n xs;
}

-- The first key with the front of its value, a wrong front, and a key that is too short.
abbrev expectations : List (Bytes × Bytes)
expectations = (key_of 1, 10 ∷ 0 ∷ []) ∷ ((key_of 2, 21 ∷ []) ∷ ((5 ∷ [], 10 ∷ []) ∷ []))

zeros-IsByte : (n : ℕ) → All IsByte (replicate n 0)
unfolding replicate
zeros-IsByte zero = tt
zeros-IsByte (suc n) = (omega arith, zeros-IsByte n)

expectations-IsExpectation : All IsExpectation expectations
expectations-IsExpectation = (
  ((omega arith, zeros-IsByte 63), (omega arith, (omega arith, tt)), omega arith),
  (
    ((omega arith, zeros-IsByte 63), (omega arith, tt), omega arith),
    (((omega arith, tt), (omega arith, tt), omega arith), tt),
  ),
)

verify_expected_counts_example :
    verify_expected places disk (codes "a.bin") (ok (map pair_of expectations)) [] ≡ (
      if sum (miss two_keys two_values) expectations == 0
          then ok tt
          else err (message (failed_message (sum (miss two_keys two_values) expectations))),
      record {
        passed = sum (hit two_keys two_values) expectations;
        failed = sum (miss two_keys two_values) expectations;
      }
          ∷ [],
    )
verify_expected_counts_example =
    verify_expected_counts places two_store two_keys two_values two-IsTable two-IsLoaded disk
      (codes "a.bin") expectations [] (opens (codes "a.bin")) expectations-IsExpectation
      (omega arith)

-- One pair passes, one fails, and one is skipped.
counts_run :
    (sum (hit two_keys two_values) expectations ≡ 1)
    × (sum (miss two_keys two_values) expectations ≡ 1)
unfolding hit miss begins lookup bytes_eq replicate
counts_run = (refl, refl)

abbrev pub two_rows : List (List Text)
two_rows =
    (codes "id" ∷ codes "a" ∷ codes "x" ∷ []) ∷ ((codes "id" ∷ codes "b" ∷ codes "y" ∷ []) ∷ [])

pub two_rows-HasCells : HasCells 1 2 two_rows ((codes "a", codes "x") ∷ (codes "b", codes "y") ∷ [])
unfolding column
two_rows-HasCells = (refl, refl, (refl, refl, tt))
