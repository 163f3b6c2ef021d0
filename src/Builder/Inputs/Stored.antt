-- ===== src/Builder/Inputs/Stored.antt =====
-- The commands `binary` and `csv` from their input to the store that is opened from their output.
use lowlatency.Common.{
  ℕ, ◌*◌, ◌^◌, ◌≤◌, ◌<◌, ◌≡◌, refl, sym, ◌∙◌, arith, Bytes, Text, List, [], ◌∷◌, ◌++◌, length,
  length-append, length-map, map, All, Distinct, Bool, Outcome, ok,
}
use lowlatency.Kv.Error.{Error}
use lowlatency.Kv.Header.{max_records}
use lowlatency.Kv.Record.{key_size, value_size, IsKey, IsValue, record_size}
use lowlatency.Kv.GoFunction.{GoFunction, IsLawful}
use lowlatency.Kv.Store
use lowlatency.Kv.Store.{KvStore, open_bytes}
use lowlatency.Kv.Store.Loaded.{lookup, IsTable}
use lowlatency.Builder.Snapshot
use lowlatency.Builder.Snapshot.{Output}
use lowlatency.Builder.Snapshot.Layout.{all_succeed}
use lowlatency.Builder.Snapshot.Built.{IsBuildable}
use lowlatency.Builder.Snapshot.RoundTrip.{build-open-get}
use lowlatency.Builder.Inputs.{
  records_of_binary, string_to_key, string_to_value, build_from_binary, build_from_csv,
}
use lowlatency.Builder.Inputs.Binary.{file_of, records_of_binary-file_of}
use lowlatency.Builder.Inputs.Csv.{HasCells, padded, map-string_to_key, csv_records-string_to_key}

append_inj :
    (xs ys us ws : Bytes) → length xs ≡ length ys → xs ++ us ≡ ys ++ ws → (xs ≡ ys) × (us ≡ ws)
append_inj [] [] us ws sized same = (refl, same)
append_inj [] (y ∷ ys) us ws sized same = absurd (omega (arith, sized))
append_inj (x ∷ xs) [] us ws sized same = absurd (omega (arith, sized))
append_inj (x ∷ xs) (y ∷ ys) us ws sized same =
    let head : x ≡ y = cc same in
    let tail : xs ++ us ≡ ys ++ ws = cc same in
    let (front, back) = append_inj xs ys us ws (omega (arith, sized)) tail in
    (λ i. head i ∷ front i, back)

-- A file of records has one table of records.
file_of_inj :
    (keys values keys' values' : List Bytes)
    → All IsKey keys
    → All IsValue values
    → All IsKey keys'
    → All IsValue values'
    → length keys ≡ length values
    → length keys' ≡ length values'
    → length keys ≡ length keys'
    → file_of keys values ≡ file_of keys' values'
    → (keys ≡ keys') × (values ≡ values')
unfolding file_of
file_of_inj [] [] [] [] k v k' v' n n' m same = (refl, refl)
file_of_inj [] [] [] (w' ∷ values') k v k' v' n n' m same = absurd (omega (arith, n'))
file_of_inj [] [] (j' ∷ keys') values' k v k' v' n n' m same = absurd (omega (arith, m))
file_of_inj [] (w ∷ values) keys' values' k v k' v' n n' m same = absurd (omega (arith, n))
file_of_inj (j ∷ keys) [] keys' values' k v k' v' n n' m same = absurd (omega (arith, n))
file_of_inj (j ∷ keys) (w ∷ values) [] values' k v k' v' n n' m same = absurd (omega (arith, m))
file_of_inj (j ∷ keys) (w ∷ values) (j' ∷ keys') [] k v k' v' n n' m same =
    absurd (omega (arith, n'))
file_of_inj (j ∷ keys) (w ∷ values) (j' ∷ keys') (w' ∷ values') (k, ks) (v, vs) (k', ks') (v', vs')
      n n' m same =
    let (key, behind) = append_inj j j' _ _ (omega (arith, k, k')) same in
    let (value, rest) = append_inj w w' _ _ (omega (arith, v, v')) behind in
    let (keys_same, values_same) =
      file_of_inj keys values keys' values' ks vs ks' vs' (omega (arith, n)) (omega (arith, n'))
        (omega (arith, m)) rest in
    (λ i. key i ∷ keys_same i, λ i. value i ∷ values_same i)

length-file_of :
    (keys values : List Bytes)
    → All IsKey keys
    → All IsValue values
    → length keys ≡ length values
    → length (file_of keys values) ≡ length keys * record_size
unfolding file_of
length-file_of [] [] k v n = omega arith
length-file_of [] (w ∷ values) k v n = absurd (omega (arith, n))
length-file_of (j ∷ keys) [] k v n = absurd (omega (arith, n))
length-file_of (j ∷ keys) (w ∷ values) (k, ks) (v, vs) n = omega (
  arith,
  k,
  v,
  length-file_of keys values ks vs (omega (arith, n)),
  length-append j (w ++ file_of keys values),
  length-append w (file_of keys values),
)

-- The records of a table, written one behind the other, are read back.
file_of-records_of_binary :
    (keys values : List Bytes)
    → IsTable keys values
    → length keys ≤ max_records
    → records_of_binary (file_of keys values) ≡ ok (record { keys = keys; values = values })
file_of-records_of_binary keys values table few =
    let size : length (file_of keys values) ≡ length keys * record_size =
      length-file_of keys values table.keys_sized table.values_sized table.as_many in
    let (b, ran, same, keys_sized, values_sized, many, as_many) =
      records_of_binary-file_of (file_of keys values) (omega (arith, size, few))
        (omega (arith, size)) in
    let (is_keys, is_values) =
      file_of_inj b.keys b.values keys values keys_sized values_sized table.keys_sized
        table.values_sized (many ∙ sym as_many) table.as_many (omega (arith, many, size)) same in
    ran ∙ λ i. ok (record { keys = is_keys i; values = is_values i })

module _ (go : GoFunction) (sha256 : Bytes → Bytes) (timestamp : ℕ) where
  -- A file of 1 to 10^10 records, one behind the other, with distinct keys of 64 bytes and values
  -- of 256 bytes: when all system calls succeed the command `binary` succeeds, the output opens,
  -- and the store answers every key with the value that follows it in the input, or with `None`.
  pub build_from_binary-get :
      (keys values : List Bytes) (o : Output)
      → IsLawful go
      → IsBuildable sha256 timestamp (record { keys = keys; values = values })
      → (after : Output) × (build_from_binary go sha256 all_succeed timestamp
            (ok (file_of keys values))
            o
          ≡ (ok tt, after))
        × (s : KvStore go) × (open_bytes go after.contents ≡ ok s)
        × (Store.len go s ≡ length keys)
        × ((key : Bytes) → Store.get go {E = Error} s key ≡ ok (lookup key keys values))
  unfolding build_from_binary Snapshot.len
  build_from_binary-get keys values o lawful ready =
      let (after, ran, s, opens, sized, stamped, answers) =
        build-open-get go sha256 timestamp (record { keys = keys; values = values }) o lawful
          ready in
      (
        after,
        rw (file_of-records_of_binary keys values ready.table ready.few_keys, ran) refl,
        s,
        opens,
        sized,
        answers,
      )

  csv_built :
      (rows : Bool → List (Outcome Text (List Text))) (key_column value_column : ℕ)
      (has_header : Bool) (fields : List (List Text)) (cells : List (Text × Text)) (o : Output)
      → IsLawful go
      → ((section : Bytes) → length (sha256 section) ≡ 32)
      → timestamp < 2 ^ 64
      → rows has_header ≡ map (λ (row : List Text). ok row) fields
      → HasCells key_column value_column fields cells
      → Distinct (map (λ (c : Text × Text). string_to_key c.0) cells)
      → 0 < length cells
      → length cells ≤ max_records
      → (after : Output) × (build_from_csv go sha256 all_succeed timestamp
            (ok rows)
            key_column
            value_column
            has_header
            o
          ≡ (ok tt, after))
        × (s : KvStore go) × (open_bytes go after.contents ≡ ok s)
        × (Store.len go s ≡ length cells)
        × ((key : Bytes)
            → Store.get go {E = Error} s key
              ≡ ok (
                  lookup key
                    (map (λ (c : Text × Text). string_to_key c.0) cells)
                    (map (λ (c : Text × Text). string_to_value c.1) cells)))
  unfolding build_from_csv Snapshot.len
  csv_built rows key_column value_column has_header fields cells o lawful digest clock read has
        distinct some_cells few =
      let keys : List Bytes = map (λ (c : Text × Text). string_to_key c.0) cells in
      let values : List Bytes = map (λ (c : Text × Text). string_to_value c.1) cells in
      let (b, made, is_keys, is_values, keys_sized, values_sized) =
        csv_records-string_to_key key_column value_column fields cells has in
      let same : b ≡ record { keys = keys; values = values } =
        λ i. record { keys = is_keys i; values = is_values i } in
      let many : length keys ≡ length cells =
        length-map cells (λ (c : Text × Text). string_to_key c.0) in
      let as_many : length values ≡ length cells =
        length-map cells (λ (c : Text × Text). string_to_value c.1) in
      let (after, ran, s, opens, sized, stamped, answers) =
        build-open-get go sha256 timestamp (record { keys = keys; values = values }) o lawful
          (record {
            digest_sized = digest;
            timestamp_IsU64 = clock;
            table = record {
              keys_sized = rw is_keys at keys_sized;
              values_sized = rw is_values at values_sized;
              keys_distinct = distinct;
              as_many = many ∙ sym as_many;
            };
            some_keys = omega (arith, many, some_cells);
            few_keys = omega (arith, many, few);
          }) in
      (after, rw (read, made, same, ran) refl, s, opens, sized ∙ many, answers)

  -- A CSV file whose 1 to 10^10 rows are all read, each with its two cells, where the keys of no
  -- two rows are equal: when all system calls succeed the command `csv` succeeds, the output opens,
  -- and the store answers every key as the cells do, each cut, or filled with zeros, to the 64
  -- bytes of a key or the 256 bytes of a value.
  pub build_from_csv-get :
      (rows : Bool → List (Outcome Text (List Text))) (key_column value_column : ℕ)
      (has_header : Bool) (fields : List (List Text)) (cells : List (Text × Text)) (o : Output)
      → IsLawful go
      → ((section : Bytes) → length (sha256 section) ≡ 32)
      → timestamp < 2 ^ 64
      → rows has_header ≡ map (λ (row : List Text). ok row) fields
      → HasCells key_column value_column fields cells
      → Distinct (map (λ (c : Text × Text). padded key_size c.0) cells)
      → 0 < length cells
      → length cells ≤ max_records
      → (after : Output) × (build_from_csv go sha256 all_succeed timestamp
            (ok rows)
            key_column
            value_column
            has_header
            o
          ≡ (ok tt, after))
        × (s : KvStore go) × (open_bytes go after.contents ≡ ok s)
        × (Store.len go s ≡ length cells)
        × ((key : Bytes)
            → Store.get go {E = Error} s key
              ≡ ok (
                  lookup key
                    (map (λ (c : Text × Text). padded key_size c.0) cells)
                    (map (λ (c : Text × Text). padded value_size c.1) cells)))
  build_from_csv-get rows key_column value_column has_header fields cells o lawful digest clock read
        has distinct some_cells few =
      let (keys, values) = map-string_to_key cells in
      let (after, ran, s, opens, sized, answers) =
        csv_built rows key_column value_column has_header fields cells o lawful digest clock read
          has (rw keys distinct) some_cells few in
      (after, ran, s, opens, sized, λ key. answers key ∙ λ i. ok (lookup key (keys i) (values i)))
