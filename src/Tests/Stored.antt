-- ===== src/Tests/Stored.antt =====
-- The commands `binary` and `csv` at concrete inputs.
use lowlatency.Common.{
  ℕ, ◌≡◌, ◌≢◌, refl, sym, ap, arith, inl, inr, Bytes, Text, List, [], ◌∷◌, map, Distinct, true, ok,
  err, ◌++◌, none, Outcome, Bool,
}
use lowlatency.Common.Format.{codes}
use lowlatency.Kv.Error.{Error}
use lowlatency.Kv.Record.{key_size, value_size}
use lowlatency.Kv.Store
use lowlatency.Kv.Store.{KvStore, open_bytes}
use lowlatency.Kv.Store.Loaded.{lookup}
use lowlatency.Builder.Snapshot.{Output}
use lowlatency.Builder.Snapshot.Layout.{all_succeed}
use lowlatency.Builder.Inputs.{build_from_binary, build_from_csv, message, column}
use lowlatency.Builder.Inputs.Binary.{file_of}
use lowlatency.Builder.Inputs.Csv.{padded}
use lowlatency.Builder.Inputs.Stored.{build_from_binary-get, build_from_csv-get}
use lowlatency.Builder.Inputs.Refused.{no_key, build_from_csv_stops}
use lowlatency.Tests.Hash.{places, places-IsLawful}
use lowlatency.Tests.Data.{two_keys, two_values, digest, stamp, two-IsBuildable, no_file}
use lowlatency.Tests.Commands.{two_rows, two_rows-HasCells}

build_from_binary-get_example :
    (after : Output) × (build_from_binary places digest all_succeed stamp
        (ok (file_of two_keys two_values))
        no_file
      ≡ (ok tt, after))
    × (s : KvStore places) × (open_bytes places after.contents ≡ ok s)
    × (Store.len places s ≡ 2)
    × ((key : Bytes) → Store.get places {E = Error} s key ≡ ok (lookup key two_keys two_values))
build_from_binary-get_example =
    build_from_binary-get places digest stamp two_keys two_values no_file places-IsLawful
      two-IsBuildable

abbrev two_cells : List (Text × Text)
two_cells = (codes "a", codes "x") ∷ (codes "b", codes "y") ∷ []

abbrev first : Bytes → ℕ
first [] = 0
first (x ∷ xs) = x

keys_differ : padded key_size (codes "a") ≢ padded key_size (codes "b")
keys_differ e = let one : 97 ≡ 98 = ap first e in absurd (omega (arith, one))

cells-Distinct : Distinct (map (λ (c : Text × Text). padded key_size c.0) two_cells)
cells-Distinct = (elim [ inl e ↦ keys_differ (sym e) | inr e ↦ e ], ((λ e. e), tt))

build_from_csv-get_example :
    (after : Output) × (build_from_csv places digest all_succeed stamp
        (ok (λ has_header. map (λ (row : List Text). ok row) two_rows))
        1
        2
        true
        no_file
      ≡ (ok tt, after))
    × (s : KvStore places) × (open_bytes places after.contents ≡ ok s)
    × (Store.len places s ≡ 2)
    × ((key : Bytes)
        → Store.get places {E = Error} s key
          ≡ ok (
              lookup key
                (map (λ (c : Text × Text). padded key_size c.0) two_cells)
                (map (λ (c : Text × Text). padded value_size c.1) two_cells)))
build_from_csv-get_example =
    build_from_csv-get places digest stamp
      (λ has_header. map (λ (row : List Text). ok row) two_rows) 1 2 true two_rows two_cells no_file
      places-IsLawful two-IsBuildable.digest_sized (omega arith) refl two_rows-HasCells
      cells-Distinct (omega arith) (omega arith)

-- A third row without a second column, and a fourth that is not read.
abbrev short_row : List Text
short_row = codes "id" ∷ []

short_row_lacks : column 1 short_row ≡ none
unfolding column
short_row_lacks = refl

abbrev broken_rows : Bool → List (Outcome Text (List Text))
broken_rows has_header =
    map (λ (row : List Text). ok row) two_rows ++ (ok short_row ∷ (err (codes "bad quote") ∷ []))

build_from_csv_stops_example :
    build_from_csv places digest all_succeed stamp (ok broken_rows) 1 2 true no_file
    ≡ (err (message (codes "Key column not found")), no_file)
build_from_csv_stops_example =
    build_from_csv_stops places digest all_succeed stamp broken_rows 1 2 true two_rows two_cells
      (ok short_row) (message (codes "Key column not found")) (err (codes "bad quote") ∷ []) no_file
      refl two_rows-HasCells (no_key short_row short_row_lacks)
