-- ===== src/Store/Standings/Examples.antt =====
-- Tests of the standings, and their theorems at concrete rows.
use arena.Common.{
  pos, ◌+ℤ◌, ◌-ℤ◌, ◌*ℤ◌, IsInt64, String, true, false, ◌≡◌, refl, some, [], ◌∷◌, All, arith, str_eq,
}
use arena.Core.Verdict.{ac, wa, ce, done}
use arena.Core.Scoring.{icpc, UserProblemStat, rank_score, minutes}
use arena.Redis.Leaderboard.{Board, lookup, script_penalty, script_cost, run_of, solve_minutes}
use arena.Redis.Leaderboard.Refines.{solved_runs, stats_of, IsTimed}
use arena.Api.World.{Contest}
use arena.Store.{Row, Db, ok}
use arena.Store.Examples.{queued_row}
use arena.Store.Standings.{Stats, find_stat, contest_stats, handle_rebuild}
use arena.Store.Standings.Fastest.{Tells, rejections, contest_stats-fastest}
use arena.Store.Standings.Rebuilt.{handle_rebuild-rank_score}

abbrev wrong_row : Row
wrong_row = record queued_row {
  id = "s0";
  status = done;
  verdict = some wa;
  judged_at = some (pos 6);
}

abbrev broken_row : Row
broken_row = record wrong_row { id = "s2"; verdict = some ce }

abbrev slow_row : Row
slow_row = record wrong_row { id = "s3"; verdict = some ac; cpu_ms = pos 40 }

abbrev fast_row : Row
fast_row = record slow_row { id = "s4"; cpu_ms = pos 30 }

abbrev judged : Db
judged = record {
  rows = wrong_row ∷ broken_row ∷ slow_row ∷ fast_row ∷ queued_row ∷ [];
  tests = [];
  cache = [];
}

abbrev ada_A : UserProblemStat
ada_A = record {
  solved = true;
  attempts = pos 1;
  best_cpu_ms = pos 30;
  best_mem_kb = pos 0;
  instructions = pos 0;
  solved_at = pos 6;
}

abbrev ada : Stats
ada = ("ada", ("A", ada_A) ∷ []) ∷ []

judged_stats : contest_stats (true, true) judged "spring" ≡ ok ada
unfolding contest_stats
judged_stats = refl

contest_stats-fastest_example :
    (stats : Stats) × (contest_stats (true, true) judged "spring" ≡ ok stats)
    × Tells "spring" "ada" "A" judged.rows
        (rejections "spring" "ada" "A" judged.rows)
        (find_stat "ada" "A" stats)
contest_stats-fastest_example = contest_stats-fastest judged "spring" "ada" "A" true

abbrev spring : Contest
spring = record { id = "spring"; starts_at = pos 1; scoring_mode = icpc }

abbrev no_boards : String → Board
no_boards c = record { stats = λ u. []; zset = [] }

ada-IsTimed : All (IsTimed icpc (pos 1)) (stats_of (("A", ada_A) ∷ []))
unfolding minutes ◌-ℤ◌
ada-IsTimed = (((λ f. cc), (λ f. cc), omega arith), tt)

ada_penalty : IsInt64 (script_penalty icpc (pos 0) (solved_runs (pos 1) (("A", ada_A) ∷ [])))
unfolding solved_runs script_penalty script_cost run_of solve_minutes minutes ◌+ℤ◌ ◌-ℤ◌ ◌*ℤ◌
ada_penalty = omega arith

handle_rebuild-rank_score_example :
    (after : String → Board) × (handle_rebuild (some spring) (true, true) judged no_boards
      ≡ (after, 200, 1))
    × (lookup "ada" (after "spring").zset ≡ some (rank_score icpc (ada_A ∷ []) (pos 1)))
    × ((other : String) → str_eq other "spring" ≡ false → after other ≡ no_boards other)
unfolding lookup
handle_rebuild-rank_score_example =
    handle_rebuild-rank_score spring true judged no_boards ada "ada" (("A", ada_A) ∷ [])
      judged_stats refl (λ u h. refl) ada-IsTimed ada_penalty (unfold solved_runs in omega arith)
