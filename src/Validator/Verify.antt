-- ===== src/Validator/Verify.antt =====
-- crates/validator/src/main.rs: the `verify` command, which checks pairs from a file.
pub mod Expected
use lowlatency.Common.{
  ℕ, ◌^◌, Text, List, [], ◌∷◌, ◌++◌, Bool, ◌&&◌, ltb, if◌then◌else◌, Outcome, ok, err, map_err,
}
use lowlatency.Common.Action.{Action, lift, modify, ◌>>=◌, ◌>>◌}
use lowlatency.Common.Format.{codes, decimal}
use lowlatency.Kv.GoFunction.{GoFunction}
use lowlatency.Kv.Store.{Disk, FilePath, open_store}
use lowlatency.Validator.Check.{CommandError, not_opened, message}
use lowlatency.Validator.Pairs.{ExpectedPair, Counts, verify_pairs}

-- The command, with the counts that it has printed.
abbrev pub Verification : Type 0 → Type 0
Verification A = Action (List Counts) CommandError A

-- `failed > 0` on an i32.
unfoldable pub is_positive : ℕ → Bool
is_positive n = ltb 0 n && ltb n (2 ^ 31)

unfoldable pub failed_message : ℕ → Text
failed_message failed = decimal failed ++ codes " verifications failed"

module _ (go : GoFunction) where
  -- `expected` is the parsed file. The counts are printed.
  unfoldable pub verify_expected :
      Disk → FilePath → Outcome Text (List ExpectedPair) → Verification Unit
  unfolding is_positive failed_message
  verify_expected disk snapshot expected = do
    store ← lift (map_err not_opened (open_store go disk snapshot))
    pairs ← lift (map_err message expected)
    counts ← lift (verify_pairs go store pairs (record { passed = 0; failed = 0 }))
    modify (λ printed. printed ++ (counts ∷ []))
    lift (if is_positive counts.failed then err (message (failed_message counts.failed)) else ok tt)
