-- ===== src/Checker/Token.antt =====
-- `Token` of internal/checker/token.go. A file that cannot be opened is `none`.
pub mod Format
use arena.Common.{
  ℕ, suc, ◌+◌, ◌==◌, Bool, true, false, ◌&&◌, Option, none, some, List, [], ◌∷◌, length,
  if◌then◌else◌,
}
use arena.Checker.Scanner.{trunc}
use arena.Checker.Compare.{
  Message, no_output, extra_output, ended_early, differs, Outcome, refuse, failure, Rules,
  compare_tokens,
}

-- `==` of two Go strings.
unfoldable pub same_bytes : List ℕ → List ℕ → Bool
same_bytes [] [] = true
same_bytes (x ∷ xs) (y ∷ ys) = x == y && same_bytes xs ys
same_bytes _ _ = false

unfoldable pub token_pair : ℕ → List ℕ → List ℕ → Option Message
unfolding same_bytes trunc
token_pair n e a = if same_bytes e a then none else some (differs (n + 1) (trunc e) (trunc a))

abbrev pub token_rules : Rules
token_rules = record {
  on_extra = λ n a. extra_output n (trunc a);
  on_early = λ n e. ended_early (n + 1) (trunc e);
  on_pair = token_pair;
}

-- Every round takes a token of the expected file, so its bytes bound the rounds.
unfoldable pub check_token : Option (List ℕ) → Option (List ℕ) → Option Outcome
unfolding compare_tokens
check_token none actual = some failure
check_token (some expected) none = some (refuse no_output)
check_token (some expected) (some actual) =
    compare_tokens token_rules (suc (length expected + length actual)) 0 expected actual
