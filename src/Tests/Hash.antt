-- ===== src/Tests/Hash.antt =====
-- A perfect hash function to run the tests with: a key's slot is its place in the list of keys.
-- It is written with each byte raised by one and a zero behind each key.
use lowlatency.Common.{
  ℕ, ◌*◌, zero, suc, ◌+◌, ◌*◌, ◌^◌, ◌<◌, ◌≡◌, refl, ap, ◌∙◌, sym, arith, List, [], ◌∷◌, ◌++◌, inl,
  inr, Bytes, Option, some, none, Elem, All, length, length-append, length-map, map, bytes_eq,
  bytes_eq→eq, eq→bytes_eq, Bool-cases, if◌then◌else◌, ltb, ok, err, lt→ltb, Outcome, Text,
}
use lowlatency.Common.Format.{codes}
use lowlatency.Kv.Record.{IsKey}
use lowlatency.Kv.GoFunction.{given, GoFunction, IsPerfect, IsLawful}

place_after : Option ℕ → Option ℕ
place_after none = none
place_after (some s) = some (suc s)

unfoldable pub place : List Bytes → Bytes → Option ℕ
unfolding bytes_eq place_after
place [] key = none
place (k ∷ keys) key = if bytes_eq k key then some 0 else place_after (place keys key)

place_there :
    (keys : List Bytes) (key : Bytes)
    → Elem key keys
    → (s : ℕ) × (place keys key ≡ some s) × (s < length keys)
unfolding place
place_there [] key e = absurd e
place_there (k ∷ keys) key (inl e) = (0, rw (eq→bytes_eq k key e), omega arith)
place_there (k ∷ keys) key (inr e) =
    let (s, at, low) = place_there keys key e in
    elim (Bool-cases (bytes_eq k key)) [
      | inl same ↦ (0, rw same, omega arith)
      | inr other ↦ (suc s, rw (other, at), omega arith)
    ]

place-injective :
    (keys : List Bytes) (j k : Bytes) (s : ℕ)
    → place keys j ≡ some s
    → place keys k ≡ some s
    → j ≡ k
unfolding place
place-injective [] j k s p q = cc
place-injective (x ∷ keys) j k zero p q = ground (arith, bytes_eq→eq x j, bytes_eq→eq x k)
place-injective (x ∷ keys) j k (suc s) p q = ground (arith, place-injective keys j k s)

place-IsPerfect : (keys : List Bytes) → IsPerfect (place keys) (length keys) keys
place-IsPerfect keys = record {
  slot = place_there keys;
  injective = λ j k ej ek same.
      let (s, at, low) = place_there keys j ej in place-injective keys j k s at (sym same ∙ at);
}

pub written : List Bytes → Bytes
written [] = []
written (k ∷ keys) = map suc k ++ (0 ∷ written keys)

push : ℕ → List Bytes → List Bytes
push b [] = (b ∷ []) ∷ []
push b (k ∷ keys) = (b ∷ k) ∷ keys

pub parsed : Bytes → List Bytes
unfolding push
parsed [] = []
parsed (zero ∷ bytes) = [] ∷ parsed bytes
parsed (suc b ∷ bytes) = push b (parsed bytes)

parsed_key : (k : Bytes) (bytes : Bytes) → parsed (map suc k ++ (0 ∷ bytes)) ≡ k ∷ parsed bytes
unfolding parsed
parsed_key [] bytes = refl
parsed_key (b ∷ k) bytes = ap (push b) (parsed_key k bytes)

parsed-written : (keys : List Bytes) → parsed (written keys) ≡ keys
unfolding parsed written
parsed-written [] = refl
parsed-written (k ∷ keys) =
    parsed_key k (written keys) ∙ ap (λ (t : List Bytes). k ∷ t) (parsed-written keys)

length-written : (keys : List Bytes) → All IsKey keys → length (written keys) ≡ 65 * length keys
unfolding written
length-written [] sized = refl
length-written (k ∷ keys) sized = omega (
  arith,
  length-append (map suc k) (0 ∷ written keys),
  length-map k suc,
  sized.0,
  length-written keys sized.1,
)

-- A vector that would be too long is refused.
pub write_all : List Bytes → Outcome Text Bytes
write_all keys =
    if ltb (length (written keys) + 8) (2 ^ 63) then ok (written keys) else err (codes "too long")

abbrev pub places : GoFunction
places = record {
  Function = List Bytes;
  from_slice = λ keys. some keys;
  get = λ keys k. some (place keys k);
  write = write_all;
  read = λ bytes. ok (parsed bytes);
  size_bytes = λ keys. 64 * length keys;
}

write_all-fits :
    (keys : List Bytes) (bytes : Bytes)
    → write_all keys ≡ ok bytes
    → (length bytes + 8 < 2 ^ 63) × (bytes ≡ written keys)
unfolding write_all
write_all-fits keys bytes h = ground arith

pub places-IsLawful : IsLawful places
places-IsLawful = record {
  builds = λ keys sized distinct few. (
    keys,
    refl,
    λ k. (place keys k, refl),
    unfold given in place-IsPerfect keys,
    written keys,
    unfold write_all in
        rw (lt→ltb (length (written keys) + 8) (2 ^ 63) (omega (arith, length-written keys sized))),
  );
  fits = λ keys bytes h. (write_all-fits keys bytes h).0;
  reads = λ keys bytes h. (
    parsed bytes,
    refl,
    λ k.
        ap (λ (t : List Bytes). some (place t k))
          (ap parsed (write_all-fits keys bytes h).1 ∙ parsed-written keys),
  );
}
