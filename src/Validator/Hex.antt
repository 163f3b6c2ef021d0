-- ===== src/Validator/Hex.antt =====
-- crates/validator/src/main.rs: the hexadecimal text of keys and values.
use lowlatency.Common.{
  ℕ, ◌+◌, ◌-◌, ◌*◌, ◌/◌, ◌%◌, ◌≤◌, ◌<◌, ◌≡◌, refl, ap, ◌∙◌, arith, Bytes, Text, [], ◌∷◌, ◌++◌,
  Option, some, none, Bool, true, false, ◌&&◌, leb, ltb, ◌==◌, ne→==, Bool-cases, inl, inr,
  if◌then◌else◌, All, IsByte, Outcome, ok, err, panic, ◌>>=◌,
}
use lowlatency.Common.Format.{codes, hex_digit, hex_encode}

-- The digit that a character stands for, in base 16.
unfoldable pub digit : ℕ → Option ℕ
digit c =
    if leb 48 c && ltb c 58
    then some (c - 48)
    else if leb 97 c && ltb c 103
    then some (c - 87)
    else if leb 65 c && ltb c 71
    then some (c - 55)
    else none

-- `u8::from_str_radix` at two bytes: a plus sign and a digit, or two digits.
from_digits : Option ℕ → Option ℕ → Outcome Text ℕ
from_digits (some high) (some low) = ok (16 * high + low)
from_digits high low = err (codes "Invalid hex string")

unfoldable pub from_str_radix : ℕ → ℕ → Outcome Text ℕ
unfolding digit from_digits
from_str_radix a b =
    if a == 43 then from_digits (some 0) (digit b) else from_digits (digit a) (digit b)

-- A slice of a `str` may not end inside of a character.
unfoldable pub is_char_boundary : Text → Bool
is_char_boundary [] = true
is_char_boundary (c ∷ s) = if leb 128 c && leb c 191 then false else true

-- The bytes `s[i..i + 2]` for each even `i`; where the text ends too early, the slice panics.
unfoldable pub hex_decode : Text → Outcome Text Bytes
unfolding from_str_radix is_char_boundary
hex_decode [] = ok []
hex_decode (a ∷ []) = panic
hex_decode (a ∷ (b ∷ s)) =
    if is_char_boundary s
    then (do byte ← from_str_radix a b; bytes ← hex_decode s; ok (byte ∷ bytes))
    else panic

digit-hex_digit : (d : ℕ) → d < 16 → digit (hex_digit d) ≡ some d
unfolding digit hex_digit
digit-hex_digit d low = ground arith

hex_digit_range : (d : ℕ) → d < 16 → (48 ≤ hex_digit d) × (hex_digit d < 103)
unfolding hex_digit
hex_digit_range d low = ground arith

from_str_radix-hex_digit :
    (b : ℕ) → IsByte b → from_str_radix (hex_digit (b / 16)) (hex_digit (b % 16)) ≡ ok b
unfolding from_str_radix from_digits
from_str_radix-hex_digit b small =
    let (low, high) = hex_digit_range (b / 16) (omega arith) in
    let no_sign : (hex_digit (b / 16) == 43) ≡ false = ne→== _ _ (omega arith) in
    let whole : 16 * (b / 16) + b % 16 ≡ b = omega arith in
    rw (no_sign, digit-hex_digit (b / 16) (omega arith), digit-hex_digit (b % 16) (omega arith))
      (ap (λ (n : ℕ). ok n) whole)

-- What follows the text of a byte is decoded by itself.
hex_decode_byte :
    (b : ℕ) (s : Text)
    → IsByte b
    → is_char_boundary s ≡ true
    → hex_decode (hex_digit (b / 16) ∷ (hex_digit (b % 16) ∷ s))
      ≡ (do bytes ← hex_decode s; ok (b ∷ bytes))
unfolding hex_decode
hex_decode_byte b s small at = rw (at, from_str_radix-hex_digit b small)

boundary_before_digit : (d : ℕ) (s : Text) → d < 16 → is_char_boundary (hex_digit d ∷ s) ≡ true
unfolding is_char_boundary
boundary_before_digit d s low = let (low, high) = hex_digit_range d low in ground arith

boundary_before_text :
    (bytes : Bytes) → All IsByte bytes → is_char_boundary (hex_encode bytes) ≡ true
unfolding hex_encode
boundary_before_text [] sized = unfold is_char_boundary in refl
boundary_before_text (b ∷ bytes) (small, sized) = boundary_before_digit (b / 16) _ (omega arith)

-- The text of bytes is decoded to the bytes.
pub hex_decode-hex_encode :
    (bytes : Bytes) → All IsByte bytes → hex_decode (hex_encode bytes) ≡ ok bytes
unfolding hex_encode
hex_decode-hex_encode [] sized = unfold hex_decode in refl
hex_decode-hex_encode (b ∷ bytes) (small, sized) =
    hex_decode_byte b (hex_encode bytes) small (boundary_before_text bytes sized)
    ∙ rw (hex_decode-hex_encode bytes sized)

hex_decode_byte_panic :
    (b : ℕ) (s : Text)
    → IsByte b
    → hex_decode s ≡ panic
    → hex_decode (hex_digit (b / 16) ∷ (hex_digit (b % 16) ∷ s)) ≡ panic
unfolding hex_decode
hex_decode_byte_panic b s small rest = elim (Bool-cases (is_char_boundary s)) [
  | inl yes_at ↦ rw (yes_at, from_str_radix-hex_digit b small, rest)
  | inr no_at ↦ rw no_at
]

-- One character more than the text of bytes makes the decoder panic: an odd length is no error that
-- the command reports.
pub hex_decode_odd :
    (bytes : Bytes) (c : ℕ) → All IsByte bytes → hex_decode (hex_encode bytes ++ (c ∷ [])) ≡ panic
unfolding hex_encode
hex_decode_odd [] c sized = unfold hex_decode in refl
hex_decode_odd (b ∷ bytes) c (small, sized) =
    hex_decode_byte_panic b (hex_encode bytes ++ (c ∷ [])) small (hex_decode_odd bytes c sized)
