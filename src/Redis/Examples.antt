-- ===== src/Redis/Examples.antt =====
-- Tests of the leaderboard, and its theorems at concrete inputs.
use arena.Common.{
  none, ◌*◌, ◌≤◌, ◌-◌, ◌+◌, ℤ, pos, true, ◌≡◌, refl, some, [], ◌∷◌, arith, ◌-ℤ◌, ◌+ℤ◌, ◌*ℤ◌,
}
use arena.Redis.RateLimit.{token, refilled, token_bucket, at_least_one, allow, count_allowed}
use arena.Redis.RateLimit.Bound.{count_allowed-bound}
use arena.Core.Scoring.{icpc, UserProblemStat, minutes}
use arena.Redis.Leaderboard.{
  Board, lookup, script_cost, script_penalty, script_score, solve_minutes, run_of, apply,
}
use arena.Redis.Leaderboard.Best.{IsScored, apply-IsScored}

abbrev empty_board : Board
empty_board = record { stats = λ u. []; zset = [] }

empty_board-IsScored : IsScored icpc empty_board
empty_board-IsScored = record { at_user = λ u. unfold lookup in refl }

-- A run accepted in the tenth minute, after two rejected attempts.
abbrev accepted : ℤ → UserProblemStat
accepted cpu = record {
  solved = true;
  attempts = pos 2;
  best_cpu_ms = cpu;
  best_mem_kb = pos 4096;
  instructions = pos 0;
  solved_at = pos 660_000_000_000;
}

abbrev start : ℤ
start = pos 60_000_000_000

abbrev one_run : Board
one_run = apply empty_board "ada" "A" (accepted (pos 40)) icpc start

apply_scores : lookup "ada" one_run.zset ≡ some (pos 999_999_950)
unfolding apply run_of solve_minutes minutes script_score script_penalty script_cost ◌+ℤ◌ ◌-ℤ◌ ◌*ℤ◌
    lookup
apply_scores = refl

apply-IsScored_example : IsScored icpc one_run
apply-IsScored_example =
    apply-IsScored empty_board "ada" "A" (accepted (pos 40)) icpc start empty_board-IsScored

first_run : lookup "A" (one_run.stats "ada") ≡ some (run_of (accepted (pos 40)) start)
unfolding lookup apply run_of
first_run = refl

-- A burst of two, then one more token a second.
three_at_once : count_allowed 60 (pos 2) none (1000 ∷ 1000 ∷ 1000 ∷ 2000 ∷ []) ≡ 3
unfolding count_allowed allow token_bucket refilled
three_at_once = refl

count_allowed-bound_example :
    count_allowed 60 (pos 2) none (1000 ∷ 1000 ∷ 1000 ∷ 2000 ∷ []) * token
    ≤ at_least_one (pos 2) * token + (2000 - 1000) * 60
count_allowed-bound_example =
    count_allowed-bound 60 (pos 2) 1000 2000 (1000 ∷ 1000 ∷ 2000 ∷ []) (omega arith)
      (omega arith, (omega arith, (omega arith, omega arith)))
