-- ===== src/Builder/Inputs/Refused.antt =====
-- The `csv` command on input that it refuses.
use lowlatency.Common.{
  ℕ, ◌≡◌, refl, Bytes, Text, List, [], ◌∷◌, ◌++◌, map, some, none, Bool, Outcome, ok, err,
}
use lowlatency.Common.Format.{codes}
use lowlatency.Kv.GoFunction.{GoFunction}
use lowlatency.Builder.Snapshot
use lowlatency.Builder.Snapshot.{SnapshotBuilder, Calls, Output, add_record}
use lowlatency.Builder.Inputs.{
  InputError, row_not_parsed, message, string_to_key, string_to_value, column, present, csv_records,
  build_from_csv,
}
use lowlatency.Builder.Inputs.Csv.{HasCells}

module _ (key_column value_column : ℕ) where
  -- A row that ends the command, and its error: the reader refuses it, or it lacks one of the two
  -- columns, the key's first.
  pub data IsRefused : Outcome Text (List Text) → InputError → Type 0 where
    not_read : (e : Text) → IsRefused (err e) (row_not_parsed e)
    no_key :
        (row : List Text)
        → column key_column row ≡ none
        → IsRefused (ok row) (message (codes "Key column not found"))
    no_value :
        (row : List Text) (key : Text)
        → column key_column row ≡ some key
        → column value_column row ≡ none
        → IsRefused (ok row) (message (codes "Value column not found"))

  csv_records_stops :
      (rows : List (List Text)) (cells : List (Text × Text)) (bad : Outcome Text (List Text))
      (e : InputError) (rest : List (Outcome Text (List Text))) (b : SnapshotBuilder)
      → HasCells key_column value_column rows cells
      → IsRefused bad e
      → csv_records key_column value_column
          (map (λ (row : List Text). ok row) rows ++ (bad ∷ rest))
          b
        ≡ err e
  unfolding csv_records present
  csv_records_stops [] [] bad e rest b has (not_read t) = refl
  csv_records_stops [] [] bad e rest b has (no_key row missing) = rw missing refl
  csv_records_stops [] [] bad e rest b has (no_value row key there missing) =
      rw (there, missing) refl
  csv_records_stops [] (c ∷ cells) bad e rest b has refused = absurd has
  csv_records_stops (row ∷ rows) [] bad e rest b has refused = absurd has
  csv_records_stops (row ∷ rows) (c ∷ cells) bad e rest b (key_at, value_at, has) refused =
      rw (key_at, value_at)
        (csv_records_stops rows cells bad e rest
          (add_record b (string_to_key c.0) (string_to_value c.1)) has refused)

-- The command `csv` fails at the first row that the reader refuses, or that lacks the column of the
-- keys or else that of the values, with the error for it, whatever rows follow; the output is left
-- as it was.
pub build_from_csv_stops :
    (go : GoFunction) (sha256 : Bytes → Bytes) (calls : Calls) (timestamp : ℕ)
    (rows : Bool → List (Outcome Text (List Text))) (key_column value_column : ℕ)
    (has_header : Bool) (fields : List (List Text)) (cells : List (Text × Text))
    (bad : Outcome Text (List Text)) (e : InputError) (rest : List (Outcome Text (List Text)))
    (o : Output)
    → rows has_header ≡ map (λ (row : List Text). ok row) fields ++ (bad ∷ rest)
    → HasCells key_column value_column fields cells
    → IsRefused key_column value_column bad e
    → build_from_csv go sha256 calls timestamp (ok rows) key_column value_column has_header o
      ≡ (err e, o)
unfolding build_from_csv
build_from_csv_stops go sha256 calls timestamp rows key_column value_column has_header fields cells
      bad e rest o read has refused =
    rw
      (
        read,
        csv_records_stops key_column value_column fields cells bad e rest Snapshot.new has refused,
      )
      refl
