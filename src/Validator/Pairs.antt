-- ===== src/Validator/Pairs.antt =====
-- crates/validator/src/main.rs: how the `verify` command judges pairs, and what it counts.
use lowlatency.Common.{
  ℕ, ◌+◌, ◌%◌, ◌^◌, Bytes, Text, List, [], ◌∷◌, length, Option, some, none, ◌==◌, bytes_eq,
  if◌then◌else◌, Outcome, ok, map_err, index_range, ◌>>=◌,
}
use lowlatency.Kv.GoFunction.{GoFunction}
use lowlatency.Kv.Record.{key_size}
use lowlatency.Kv.Store
use lowlatency.Kv.Store.{KvStore}
use lowlatency.Validator.Check.{CommandError, message}
use lowlatency.Validator.Hex.{hex_decode}

-- Both texts are hexadecimal.
pub record ExpectedPair : Type 0 where
  pub key : Text
  pub value : Text

-- The counters, of type i32, as their 32 bits.
pub record Counts : Type 0 where
  pub passed : ℕ
  pub failed : ℕ

unfoldable pub pass : Counts → Counts
pass c = record c { passed = (c.passed + 1) % 2 ^ 32 }

unfoldable pub fail : Counts → Counts
fail c = record c { failed = (c.failed + 1) % 2 ^ 32 }

-- Only as many bytes are compared as are expected: the value is cut to that length.
unfoldable pub judge : Bytes → Option Bytes → Counts → Outcome CommandError Counts
unfolding pass fail
judge expected none c = ok (fail c)
judge expected (some value) c = do
  front ← index_range 0 (length expected) value
  ok (if bytes_eq front expected then pass c else fail c)

module _ (go : GoFunction) where
  -- A pair whose key has another size is skipped.
  unfoldable pub verify_pair : KvStore go → ExpectedPair → Counts → Outcome CommandError Counts
  unfolding judge
  verify_pair s pair c = do
    key ← map_err message (hex_decode pair.key)
    expected ← map_err message (hex_decode pair.value)
    if length key == key_size then (do found ← Store.get go s key; judge expected found c) else ok c

  unfoldable pub verify_pairs :
      KvStore go → List ExpectedPair → Counts → Outcome CommandError Counts
  unfolding verify_pair
  verify_pairs s [] c = ok c
  verify_pairs s (pair ∷ pairs) c = do after ← verify_pair s pair c; verify_pairs s pairs after
