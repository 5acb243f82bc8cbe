-- ===== src/Core/Verdict.antt =====
-- internal/core/verdict.go: verdicts, their severity, and the lifecycle status.
pub mod Order
use arena.Common.{ℕ, String, Bool, true, false, ltb, if◌then◌else◌}

-- A Go string: `other` stands for every text that is none of the eight constants, such as the
-- empty one.
pub data Verdict : Type 0 where
  ac wa tle mle re ole ce ie : Verdict
  other : String → Verdict

unfoldable pub severity : Verdict → ℕ
severity ie = 70
severity ce = 60
severity ole = 50
severity mle = 40
severity tle = 30
severity re = 20
severity wa = 10
severity ac = 0
severity (other s) = 70

unfoldable pub is_accepted : Verdict → Bool
is_accepted ac = true
is_accepted _ = false

unfoldable pub is_terminal_for_submission : Verdict → Bool
is_terminal_for_submission ac = false
is_terminal_for_submission _ = true

unfoldable pub worst_of : Verdict → Verdict → Verdict
worst_of a b = if ltb (severity a) (severity b) then b else a

unfoldable pub human : Verdict → String
human ac = "Accepted"
human wa = "Wrong Answer"
human tle = "Time Limit Exceeded"
human mle = "Memory Limit Exceeded"
human re = "Runtime Error"
human ole = "Output Limit Exceeded"
human ce = "Compilation Error"
human _ = "Internal Error"

-- A Go string again: `unknown` stands for the texts that are none of the four constants.
pub data Status : Type 0 where
  queued judging done failed : Status
  unknown : String → Status

unfoldable pub is_done : Status → Bool
is_done done = true
is_done _ = false
