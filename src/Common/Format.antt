-- ===== src/Common/Format.antt =====
-- Formatted text, as a list of bytes.
use Prim.Native.Char.{code}
use Prim.Native.String.{String}
use lowlatency.Common.{
  ℕ, zero, suc, ◌+◌, ◌/◌, ◌%◌, List, [], ◌∷◌, ◌++◌, Bytes, Text, ltb, if◌then◌else◌,
}

-- The bytes of an ASCII literal.
abbrev pub codes : String → Text
codes String.[] = []
codes (String.◌∷◌ c s) = code c ∷ codes s

-- `{}` of an unsigned number, with a bound on its digits.
unfoldable pub decimal_digits : ℕ → ℕ → Text
decimal_digits zero n = []
decimal_digits (suc rounds) n =
    let front = decimal_digits rounds (n / 10) in
    if ltb n 10 then (48 + n) ∷ [] else front ++ ((48 + n % 10) ∷ [])

-- `{}` of a u64, which has at most twenty digits.
unfoldable pub decimal : ℕ → Text
unfolding decimal_digits
decimal n = decimal_digits 20 n

unfoldable pub hex_digit : ℕ → ℕ
hex_digit d = if ltb d 10 then 48 + d else 87 + d

-- `bytes.iter().map(|b| format!("{:02x}", b)).collect()`
unfoldable pub hex_encode : Bytes → Text
unfolding hex_digit
hex_encode [] = []
hex_encode (b ∷ bytes) = hex_digit (b / 16) ∷ hex_digit (b % 16) ∷ hex_encode bytes

-- `{:?}` of a text without quotes, backslashes and control characters.
unfoldable pub quoted : Text → Text
quoted s = 34 ∷ (s ++ (34 ∷ []))

-- `debug_struct` with these fields, as `{:?}` prints it.
unfoldable pub debug_fields : List (Text × Text) → Text
debug_fields [] = []
debug_fields ((name, value) ∷ []) = name ++ (codes ": " ++ value)
debug_fields ((name, value) ∷ (f ∷ fields)) =
    name ++ (codes ": " ++ (value ++ (codes ", " ++ debug_fields (f ∷ fields))))

unfoldable pub debug_struct : Text → List (Text × Text) → Text
unfolding debug_fields
debug_struct name [] = name
debug_struct name (f ∷ fields) = name ++ (codes " { " ++ (debug_fields (f ∷ fields) ++ codes " }"))
