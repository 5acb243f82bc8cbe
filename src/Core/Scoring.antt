-- ===== src/Core/Scoring.antt =====
-- internal/core/scoring.go. A rank score is a float64 in the source: every operand is an integer,
-- and with fewer than 9,007,199 solved problems every result is below 2^53, so the float64 is
-- exact and the model computes in the integers. A solved-at minus a start is taken to be an int64
-- of nanoseconds, and its whole minutes are exact while it is under 131,072 minutes.
pub mod Ranking
use arena.Common.{
  ℕ, zero, suc, ◌+◌, ◌*◌, ◌-◌, ◌/◌, ◌≤◌, ℤ, pos, negsuc, sub_ℕ, ◌+ℤ◌, ◌-ℤ◌, ◌*ℤ◌, ltb_ℤ, leb_ℤ,
  eqb_ℤ, wrap64, String, Bool, true, false, List, [], ◌∷◌, if◌then◌else◌,
}
use arena.Core.Verdict.{is_accepted}
use arena.Core.Job.{TestRef, TestResult}

-- A Go string: `other` is any text but the two constants.
pub data ScoreMode : Type 0 where
  speed icpc : ScoreMode
  other : String → ScoreMode

pub record UserProblemStat : Type 0 where
  pub solved : Bool
  pub attempts : ℤ
  pub best_cpu_ms : ℤ
  pub best_mem_kb : ℤ
  pub instructions : ℤ
  pub solved_at : ℤ

abbrev pub zset_scale : ℕ
zset_scale = 1_000_000_000

-- `int64(d.Minutes())`: whole minutes of a duration, towards zero.
unfoldable pub minutes : ℤ → ℤ
minutes (pos n) = pos (n / 60_000_000_000)
minutes (negsuc n) = sub_ℕ 0 (suc n / 60_000_000_000)

-- `s.Instructions / 1_000_000`, at a positive count.
unfoldable pub millions : ℤ → ℤ
millions (pos n) = pos (n / 1_000_000)
millions (negsuc n) = sub_ℕ 0 (suc n / 1_000_000)

unfoldable pub add_penalty : ScoreMode → ℤ → ℤ → UserProblemStat → ℤ
unfolding minutes millions
add_penalty speed start penalty s =
    wrap64
      (penalty +ℤ (if ltb_ℤ (pos 0) s.instructions then millions s.instructions else s.best_cpu_ms))
add_penalty icpc start penalty s =
    wrap64 (wrap64 (penalty +ℤ minutes (s.solved_at -ℤ start)) +ℤ wrap64 (s.attempts *ℤ pos 20))
add_penalty (other m) start penalty s = penalty

-- The loop variables of `RankScore`.
pub record Tally : Type 0 where
  pub solved : ℕ
  pub penalty : ℤ

unfoldable pub count_stat : ScoreMode → ℤ → Tally → UserProblemStat → Tally
count_stat mode start t s =
    if s.solved
    then record { solved = t.solved + 1; penalty = add_penalty mode start t.penalty s }
    else t

unfoldable pub tally : ScoreMode → ℤ → Tally → List UserProblemStat → Tally
tally mode start t [] = t
tally mode start t (s ∷ stats) = tally mode start (count_stat mode start t s) stats

-- `penalty` brought into 0 … 10^9 - 1.
unfoldable pub saturate : ℤ → ℕ
saturate (pos n) = if leb_ℤ (pos zset_scale) (pos n) then zset_scale - 1 else n
saturate (negsuc n) = 0

-- The map is the list of its values, in the order in which the loop meets them.
unfoldable pub rank_score : ScoreMode → List UserProblemStat → ℤ → ℤ
unfolding tally count_stat add_penalty saturate
rank_score mode stats start =
    let t = tally mode start (record { solved = 0; penalty = pos 0 }) stats in
    sub_ℕ (t.solved * zset_scale) (saturate t.penalty)

-- `byIdx[idx]` of the map built from `perTest`: the last entry for an index counts, 0 if none does.
unfoldable pub points_at : ℤ → List TestRef → ℤ → ℤ
points_at idx [] found = found
points_at idx (r ∷ refs) found = points_at idx refs (if eqb_ℤ r.index idx then r.points else found)

unfoldable pub points_from : ℤ → List TestResult → List TestRef → ℤ
points_from total [] refs = total
points_from total (t ∷ tests) refs =
    points_from
      (if is_accepted t.verdict then wrap64 (total +ℤ points_at t.index refs (pos 0)) else total)
      tests refs

unfoldable pub test_points : List TestResult → List TestRef → ℤ
unfolding points_from points_at
test_points tests refs = points_from (pos 0) tests refs
