-- ===== src/Checker/Compare.antt =====
-- The loop that Token and Float share: one token of each file at a time.
pub mod Lockstep
use arena.Common.{ℕ, zero, suc, ◌+◌, Bool, Option, none, some, List, if◌then◌else◌}
use arena.Checker.Scanner.{next}

-- The short text that explains a refusal, by its format string and arguments.
pub data Message : Type 0 where
  no_output : Message
  extra_output : ℕ → List ℕ → Message
  ended_early : ℕ → List ℕ → Message
  count_mismatch : ℕ → Message
  differs : ℕ → List ℕ → List ℕ → Message
  not_finite : ℕ → Message
  out_of_tolerance : ℕ → Message
  length_mismatch : ℕ → ℕ → Message
  first_difference : ℕ → Message

-- What `Check` returns: (true, "", nil), (false, message, nil) or an error.
pub data Outcome : Type 0 where
  accept : Outcome
  refuse : Message → Outcome
  failure : Outcome

-- What a checker does at the end of one file, and with two tokens; `n` tokens are behind it.
pub record Rules : Type 0 where
  pub on_extra : ℕ → List ℕ → Message
  pub on_early : ℕ → List ℕ → Message
  pub on_pair : ℕ → List ℕ → List ℕ → Option Message

unfoldable pub step :
    Rules
    → ℕ
    → (List ℕ → List ℕ → Option Outcome)
    → Option (List ℕ × List ℕ)
    → Option (List ℕ × List ℕ)
    → Option Outcome
step r n again none none = some accept
step r n again none (some (a, actual)) = some (refuse (r.on_extra n a))
step r n again (some (e, expected)) none = some (refuse (r.on_early n e))
step r n again (some (e, expected)) (some (a, actual)) = elim (r.on_pair n e a) [
  | none ↦ again expected actual
  | some m ↦ some (refuse m)
]

-- `none` only if the fuel runs out.
unfoldable pub compare_tokens : Rules → ℕ → ℕ → List ℕ → List ℕ → Option Outcome
compare_tokens r zero n expected actual = none
compare_tokens r (suc fuel) n expected actual =
    step r n (compare_tokens r fuel (n + 1)) (next expected) (next actual)
