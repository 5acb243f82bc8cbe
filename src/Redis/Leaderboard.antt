-- ===== src/Redis/Leaderboard.antt =====
-- internal/adapters/redisq/leaderboard.go. A Redis hash or sorted set is an association list by
-- key. The numbers of the Lua script are doubles that hold integers below 2^53, and the text
-- "cpu|instr|attempts|minutes" of a hash value is a record.
pub mod Best
pub mod Refines
pub mod Rebuild
use mathlib.Core.List.{foldl}
use arena.Common.{
  ℕ, suc, ◌+◌, ◌-◌, ◌*◌, ◌/◌, ℤ, pos, negsuc, sub_ℕ, ◌+ℤ◌, ◌-ℤ◌, ◌*ℤ◌, ltb_ℤ, leb_ℤ, eqb_ℤ, ltb,
  leb, String, str_eq, Bool, ◌&&◌, ◌||◌, not, true, false, Option, none, some, List, [], ◌∷◌,
  if◌then◌else◌,
}
use arena.Core.Scoring.{
  ScoreMode, speed, icpc, other, UserProblemStat, zset_scale, minutes, millions, saturate,
}

-- The value of a hash field: a participant's best accepted run of one problem.
pub record Run : Type 0 where
  pub cpu : ℤ
  pub instr : ℤ
  pub attempts : ℤ
  pub mins : ℤ

-- HGET and HSET, and ZSCORE and ZADD.
module _ {ℓ} {V : Type ℓ} where
  unfoldable pub lookup : String → List (String × V) → Option V
  lookup k [] = none
  lookup k ((j, v) ∷ m) = if str_eq j k then some v else lookup k m

  unfoldable pub insert : String → V → List (String × V) → List (String × V)
  insert k v [] = (k, v) ∷ []
  insert k v ((j, w) ∷ m) = if str_eq j k then (k, v) ∷ m else (j, w) ∷ insert k v m

-- One contest: the stats hash of each participant, and the sorted set.
pub record Board : Type 0 where
  pub stats : String → List (String × Run)
  pub zset : List (String × ℤ)

-- `write` of the script: no run yet, or a strictly faster one.
unfoldable pub improves : Option Run → ℤ → Bool
improves none cpu = true
improves (some run) cpu = not (leb_ℤ run.cpu cpu)

unfoldable pub record_run : String → Run → List (String × Run) → List (String × Run)
unfolding improves lookup insert
record_run problem run runs =
    if improves (lookup problem runs) run.cpu then insert problem run runs else runs

-- What the script adds to the penalty for a field; any mode but 'speed' takes the last branch.
unfoldable pub script_cost : ScoreMode → Run → ℤ
unfolding millions
script_cost speed run = if ltb_ℤ (pos 0) run.instr then millions run.instr else run.cpu
script_cost icpc run = run.mins +ℤ pos 20 *ℤ run.attempts
script_cost (other m) run = run.mins +ℤ pos 20 *ℤ run.attempts

unfoldable pub script_penalty : ScoreMode → ℤ → List (String × Run) → ℤ
script_penalty mode penalty [] = penalty
script_penalty mode penalty ((p, run) ∷ runs) =
    script_penalty mode (penalty +ℤ script_cost mode run) runs

abbrev pub count : List (String × Run) → ℕ
count [] = 0
count (r ∷ runs) = suc (count runs)

-- `solved * scale - penalty`, the penalty first brought into 0 … scale - 1.
unfoldable pub script_score : ScoreMode → List (String × Run) → ℤ
unfolding script_penalty script_cost saturate
script_score mode runs =
    sub_ℕ (count runs * zset_scale) (saturate (script_penalty mode (pos 0) runs))

unfoldable pub apply_script : Board → String → String → Run → ScoreMode → Board
unfolding record_run script_score
apply_script b user problem run mode =
    let runs = record_run problem run (b.stats user) in
    record {
      stats = λ u. if str_eq u user then runs else b.stats u;
      zset = insert user (script_score mode runs) b.zset;
    }

-- The minutes that `Apply` passes on: 0 for a zero time, and never negative.
unfoldable pub solve_minutes : ℤ → ℤ → ℤ
unfolding minutes
solve_minutes solved_at start =
    if not (eqb_ℤ solved_at (pos 0)) && not (eqb_ℤ start (pos 0))
    then (let m = minutes (solved_at -ℤ start) in if ltb_ℤ m (pos 0) then pos 0 else m)
    else pos 0

unfoldable pub run_of : UserProblemStat → ℤ → Run
unfolding solve_minutes
run_of st start = record {
  cpu = st.best_cpu_ms;
  instr = st.instructions;
  attempts = st.attempts;
  mins = solve_minutes st.solved_at start;
}

-- `Apply`, on a Redis that answers.
unfoldable pub apply : Board → String → String → UserProblemStat → ScoreMode → ℤ → Board
unfolding apply_script run_of
apply b user problem st mode start =
    if not st.solved then b else apply_script b user problem (run_of st start) mode

-- The inner loop of `Rebuild`: the problems of one participant.
unfoldable pub apply_problems :
    Board → String → List (String × UserProblemStat) → ScoreMode → ℤ → Board
apply_problems b user [] mode start = b
apply_problems b user ((problem, st) ∷ rest) mode start =
    apply_problems (apply b user problem st mode start) user rest mode start

unfoldable pub apply_users :
    Board → List (String × List (String × UserProblemStat)) → ScoreMode → ℤ → Board
apply_users b [] mode start = b
apply_users b ((user, problems) ∷ rest) mode start =
    apply_users (apply_problems b user problems mode start) rest mode start

abbrev pub is_listed {ℓ} : {V : Type ℓ} → String → List (String × V) → Bool
is_listed u [] = false
is_listed u ((v, x) ∷ rest) = str_eq v u || is_listed u rest

-- The two DELs of `Rebuild`: the sorted set, and the hashes of the participants it was given.
unfoldable pub clear : Board → List (String × List (String × UserProblemStat)) → Board
clear b stats = record { stats = λ u. if is_listed u stats then [] else b.stats u; zset = [] }

unfoldable pub rebuild :
    Board → List (String × List (String × UserProblemStat)) → ScoreMode → ℤ → Board
unfolding clear apply_users apply_problems apply
rebuild b stats mode start = apply_users (clear b stats) stats mode start

-- One row of `Top`.
pub record RankEntry : Type 0 where
  pub rank : ℕ
  pub user_id : String
  pub score : ℤ
  pub solved : ℤ

-- `int(math.Ceil(score / zsetScale))`.
unfoldable pub ceil_div : ℤ → ℤ
ceil_div (pos n) = pos ((n + (zset_scale - 1)) / zset_scale)
ceil_div (negsuc n) = sub_ℕ 0 (suc n / zset_scale)

unfoldable pub rank_entries : ℕ → List (String × ℤ) → List RankEntry
unfolding ceil_div
rank_entries i [] = []
rank_entries i ((user, score) ∷ zs) =
    record { rank = i + 1; user_id = user; score = score; solved = ceil_div score }
    ∷ rank_entries (i + 1) zs

abbrev pub page_size : ℤ → ℤ
page_size n = if leb_ℤ n (pos 0) || ltb_ℤ (pos 500) n then pos 100 else n

-- `Top`. ZREVRANGE is a parameter: the members from the first to the n-th, best first.
unfoldable pub top : (ℤ → List (String × ℤ) → List (String × ℤ)) → Board → ℤ → List RankEntry
unfolding rank_entries
top zrevrange b n = rank_entries 0 (zrevrange (page_size n) b.zset)
