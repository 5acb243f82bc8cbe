-- ===== src/Store/Standings.antt =====
-- `ContestStats` of internal/adapters/postgres/store.go, and `handleRebuild` of
-- internal/api/handlers_auth.go, which makes the leaderboard from it. A map is an association list;
-- the order of users and problems in an answer, which the map forgets, is left out.
mod Entries
mod Ordered
pub mod Fastest
mod Rebuilt
mod Examples
use arena.Common.{
  ℕ, ℤ, pos, leb_ℤ, String, str_eq, Bool, ◌&&◌, not, true, false, Option, none, some, List, [], ◌∷◌,
  length, filter, order_by, if◌then◌else◌,
}
use arena.Core.Verdict.{Verdict, ce, is_accepted}
use arena.Core.Scoring.{UserProblemStat}
use arena.Redis.Leaderboard.{lookup, insert, Board, rebuild}
use arena.Api.World.{Contest}
use arena.Store.{Row, Db, DbResult, ok, refused}

abbrev pub Stats : Type 0
Stats = List (String × List (String × UserProblemStat))

-- `out[uid]`, a null map if there is none.
unfoldable pub problems_of : String → Stats → List (String × UserProblemStat)
unfolding lookup
problems_of uid out = elim (lookup uid out) [ none ↦ [] | some m ↦ m ]

-- `out[uid][pid]`
unfoldable pub find_stat : String → String → Stats → Option UserProblemStat
unfolding problems_of lookup
find_stat uid pid out = lookup pid (problems_of uid out)

unfoldable pub set_stat : String → String → UserProblemStat → Stats → Stats
unfolding problems_of insert
set_stat uid pid st out = insert uid (insert pid st (problems_of uid out)) out

abbrev pub is_entry : String → String → Row → Bool
is_entry uid pid x = str_eq x.user_id uid && str_eq x.problem_id pid

-- `contest_id = $1 AND verdict = 'AC'`
unfoldable pub is_solved : String → Row → Bool
unfolding is_accepted
is_solved contest x =
    str_eq x.contest_id contest && (elim x.verdict [ none ↦ false | some v ↦ is_accepted v ])

-- `contest_id = $1 AND verdict IS NOT NULL AND verdict <> 'AC' AND verdict <> 'CE'`
abbrev pub is_compile_error : Verdict → Bool
is_compile_error ce = true
is_compile_error _ = false

unfoldable pub is_rejected : String → Row → Bool
unfolding is_accepted
is_rejected contest x =
    str_eq x.contest_id contest
    && (elim x.verdict [ none ↦ false | some v ↦ not (is_accepted v) && not (is_compile_error v) ])

-- `ORDER BY … cpu_ms ASC`: among rows with the same time the order is free, and here that of the
-- table.
unfoldable pub cpu_first : Row → Row → Bool
cpu_first x y = leb_ℤ x.cpu_ms y.cpu_ms

-- `DISTINCT ON (user_id, problem_id)`: the first row of each.
unfoldable pub distinct_on : List Row → List Row
distinct_on [] = []
distinct_on (x ∷ rows) =
    x ∷ filter (λ y. not (is_entry x.user_id x.problem_id y)) (distinct_on rows)

abbrev pub solved_at : Option ℤ → ℤ
solved_at none = pos 0
solved_at (some t) = t

unfoldable pub stat_of : Row → UserProblemStat
stat_of x = record {
  solved = true;
  attempts = pos 0;
  best_cpu_ms = x.cpu_ms;
  best_mem_kb = x.mem_kb;
  instructions = x.instructions;
  solved_at = solved_at x.judged_at;
}

-- The loop over the rows of the first query.
unfoldable pub add_solved : Stats → List Row → Stats
unfolding set_stat stat_of
add_solved out [] = out
add_solved out (x ∷ rows) = add_solved (set_stat x.user_id x.problem_id (stat_of x) out) rows

-- `GROUP BY 1,2` with `count(*)`.
pub record Group : Type 0 where
  pub user_id : String
  pub problem_id : String
  pub n : ℕ

abbrev pub is_group : String → String → Group → Bool
is_group uid pid g = str_eq g.user_id uid && str_eq g.problem_id pid

abbrev pub group_of : List Row → Row → Group
group_of rows x = record {
  user_id = x.user_id;
  problem_id = x.problem_id;
  n = length (filter (is_entry x.user_id x.problem_id) rows);
}

unfoldable pub groups_of : List Row → List Row → List Group
groups_of rows [] = []
groups_of rows (x ∷ keys) = group_of rows x ∷ groups_of rows keys

unfoldable pub group_by : List Row → List Group
unfolding groups_of distinct_on
group_by rows = groups_of rows (distinct_on rows)

-- The loop over the rows of the second query.
unfoldable pub set_count : Stats → Group → Option UserProblemStat → Stats
unfolding set_stat
set_count out g none = out
set_count out g (some st) = set_stat g.user_id g.problem_id (record st { attempts = pos g.n }) out

unfoldable pub set_attempts : Stats → Group → Stats
unfolding find_stat set_count
set_attempts out g = set_count out g (find_stat g.user_id g.problem_id out)

unfoldable pub add_attempts : Stats → List Group → Stats
unfolding set_attempts
add_attempts out [] = out
add_attempts out (g ∷ gs) = add_attempts (set_attempts out g) gs

-- `ContestStats`. Whether the two queries are answered is an argument.
unfoldable pub contest_stats : Bool × Bool → Db → String → DbResult Stats
unfolding is_solved is_rejected order_by cpu_first distinct_on add_solved group_by add_attempts
contest_stats answered db contest =
    let out =
      add_solved [] (distinct_on (order_by cpu_first (filter (is_solved contest) db.rows))) in
    if not answered.0
    then refused
    else (if not answered.1
        then ok out
        else ok (add_attempts out (group_by (filter (is_rejected contest) db.rows))))

-- `handleRebuild`, for the contest found by its slug: the boards, the status, and how many users
-- were rebuilt. Redis is taken to answer.
unfoldable pub rebuilt : Contest → (String → Board) → DbResult Stats → (String → Board) × ℕ × ℕ
unfolding rebuild
rebuilt c boards refused = (boards, 500, 0)
rebuilt c boards (ok stats) = (
  λ id.
      if str_eq id c.id then rebuild (boards c.id) stats c.scoring_mode c.starts_at else boards id,
  200,
  length stats,
)

unfoldable pub handle_rebuild :
    Option Contest → Bool × Bool → Db → (String → Board) → (String → Board) × ℕ × ℕ
unfolding contest_stats rebuilt
handle_rebuild none answered db boards = (boards, 404, 0)
handle_rebuild (some c) answered db boards = rebuilt c boards (contest_stats answered db c.id)
