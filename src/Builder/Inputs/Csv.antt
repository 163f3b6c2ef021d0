-- ===== src/Builder/Inputs/Csv.antt =====
-- The `from-csv` command: two columns of each row, as bytes of a fixed length.
use lowlatency.Common.{
  ℕ, ◌≤◌, ◌≡◌, refl, sym, ◌∙◌, arith, Bytes, Text, List, [], ◌∷◌, ◌++◌, map, length, take,
  replicate, zero, suc, overlay, splice, min, ap, refl, some, All, ok, length-splice,
  length-replicate,
}
use lowlatency.Kv.Record.{IsKey, IsValue, key_size, value_size}
use lowlatency.Builder.Snapshot
use lowlatency.Builder.Snapshot.{SnapshotBuilder, add_record}
use lowlatency.Builder.Inputs.{
  fixed, string_to_key, string_to_value, column, present, csv_records, append_nil, append_one,
}

length-fixed : (size : ℕ) (s : Text) → length (fixed size s) ≡ size
unfolding fixed
length-fixed size s =
    length-splice 0 (take (min (length s) size) s) (replicate size 0) ∙ length-replicate size 0

-- The first bytes of a text that is followed by zeros.
abbrev pub padded : ℕ → Text → Bytes
padded size s = take size (s ++ replicate size 0)

overlay-padded :
    (size many : ℕ) (s : Text)
    → size ≤ many
    → overlay (take (min (length s) size) s) (replicate size 0) ≡ take size (s ++ replicate many 0)
unfolding overlay replicate
overlay-padded zero many s room =
    let nothing : min (length s) 0 ≡ 0 = omega arith in rw nothing refl
overlay-padded (suc size) zero [] room = absurd (omega arith)
overlay-padded (suc size) (suc many) [] room =
    let nothing : min 0 (suc size) ≡ 0 = omega arith in
    let less : min 0 size ≡ 0 = omega arith in
    let rest = overlay-padded size many [] (omega arith) in
    rw nothing (ap (λ (t : Bytes). 0 ∷ t) (rw less at rest))
overlay-padded (suc size) many (c ∷ s) room =
    let one_more : min (suc (length s)) (suc size) ≡ suc (min (length s) size) = omega arith in
    rw one_more (ap (λ (t : Bytes). c ∷ t) (overlay-padded size many s (omega arith)))

fixed-padded : (size : ℕ) (s : Text) → fixed size s ≡ padded size s
unfolding fixed splice
fixed-padded size s = overlay-padded size size s (omega arith)

-- The cells of rows as keys or values.
pub map-string_to_key :
    (cells : List (Text × Text))
    → (map (λ (c : Text × Text). string_to_key c.0) cells
        ≡ map (λ (c : Text × Text). padded key_size c.0) cells)
      × (map (λ (c : Text × Text). string_to_value c.1) cells
          ≡ map (λ (c : Text × Text). padded value_size c.1) cells)
unfolding string_to_key string_to_value
map-string_to_key [] = (refl, refl)
map-string_to_key (c ∷ cells) =
    let (keys, values) = map-string_to_key cells in
    (λ i. fixed-padded key_size c.0 i ∷ keys i, λ i. fixed-padded value_size c.1 i ∷ values i)

fixed_sized :
    (size : ℕ) (texts : List (Text × Text)) (cell : Text × Text → Text)
    → All (λ (b : Bytes). length b ≡ size) (map (λ (c : Text × Text). fixed size (cell c)) texts)
fixed_sized size [] cell = tt
fixed_sized size (c ∷ texts) cell = (length-fixed size (cell c), fixed_sized size texts cell)

module _ (key_column value_column : ℕ) where
  -- The rows have these cells in the two columns.
  abbrev pub HasCells : List (List Text) → List (Text × Text) → Type 0
  HasCells [] [] = Unit {0}
  HasCells (row ∷ rows) (c ∷ cells) =
      (column key_column row ≡ some c.0)
      × (column value_column row ≡ some c.1)
      × HasCells rows cells
  HasCells rows cells = ⊥

  csv_records-append :
      (rows : List (List Text)) (cells : List (Text × Text)) (b : SnapshotBuilder)
      → HasCells rows cells
      → csv_records key_column value_column (map (λ (row : List Text). ok row) rows) b
        ≡ ok (record {
          keys = b.keys ++ map (λ (c : Text × Text). string_to_key c.0) cells;
          values = b.values ++ map (λ (c : Text × Text). string_to_value c.1) cells;
        })
  unfolding csv_records present add_record
  csv_records-append [] [] b has =
      λ j. ok (record { keys = sym (append_nil b.keys) j; values = sym (append_nil b.values) j })
  csv_records-append [] (c ∷ cells) b has = absurd has
  csv_records-append (row ∷ rows) [] b has = absurd has
  csv_records-append (row ∷ rows) (c ∷ cells) b (key_at, value_at, has) =
      let key : Bytes = string_to_key c.0 in
      let value : Bytes = string_to_value c.1 in
      rw (key_at, value_at)
        (csv_records-append rows cells (add_record b key value) has ∙ λ j. ok (record {
          keys = append_one b.keys key (map (λ (c : Text × Text). string_to_key c.0) cells) j;
          values =
              append_one b.values value (map (λ (c : Text × Text). string_to_value c.1) cells) j;
        }))

  -- When all rows are read and each has its two cells, the command's loop succeeds with a record
  -- for each row, in the order of the rows: the keys are those of the key cells and have 64 bytes,
  -- the values those of the value cells with 256 bytes.
  pub csv_records-string_to_key :
      (rows : List (List Text)) (cells : List (Text × Text))
      → HasCells rows cells
      → (b : SnapshotBuilder) × (csv_records key_column value_column
            (map (λ (row : List Text). ok row) rows)
            Snapshot.new
          ≡ ok b)
        × (b.keys ≡ map (λ (c : Text × Text). string_to_key c.0) cells)
        × (b.values ≡ map (λ (c : Text × Text). string_to_value c.1) cells)
        × All IsKey b.keys
        × All IsValue b.values
  unfolding Snapshot.new string_to_key string_to_value
  csv_records-string_to_key rows cells has = (
    record {
      keys = map (λ (c : Text × Text). string_to_key c.0) cells;
      values = map (λ (c : Text × Text). string_to_value c.1) cells;
    },
    csv_records-append rows cells Snapshot.new has,
    refl,
    refl,
    fixed_sized key_size cells (λ c. c.0),
    fixed_sized value_size cells (λ c. c.1),
  )
