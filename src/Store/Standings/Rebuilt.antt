-- ===== src/Store/Standings/Rebuilt.antt =====
-- The leaderboard that `handleRebuild` makes.
use arena.Common.{
  ◌<◌, pos, IsInt64, String, str_eq, str_eq_iff, Bool, true, false, ◌||◌, ◌≡◌, refl, ap, subst, ◌∙◌,
  Option, none, some, List, [], ◌∷◌, length, filter, order_by, All, if◌then◌else◌, arith,
  Bool-cases, Option-cases, inl, inr,
}
use arena.Core.Scoring.{UserProblemStat, rank_score}
use arena.Redis.Leaderboard.{lookup, insert, Board, count, script_penalty, is_listed, rebuild}
use arena.Redis.Leaderboard.Rebuild.{Distinct, IsCovered, rebuild-rank_score}
use arena.Redis.Leaderboard.Refines.{solved_runs, stats_of, IsTimed}
use arena.Api.World.{Contest}
use arena.Store.{Row, Db, ok}
use arena.Store.Standings.{
  Stats, Group, problems_of, set_stat, is_solved, is_rejected, cpu_first, distinct_on, stat_of,
  add_solved, group_by, find_stat, set_count, set_attempts, add_attempts, contest_stats,
  handle_rebuild, rebuilt,
}

module _ {ℓ} {V : Type ℓ} where
  is_listed-insert :
      (k j : String) (v : V) (m : List (String × V))
      → is_listed j (insert k v m) ≡ (str_eq k j || is_listed j m)
  unfolding insert
  is_listed-insert k j v [] = refl
  is_listed-insert k j v ((i, w) ∷ m) =
      ground (arith, str_eq_iff i k, str_eq_iff i j, str_eq_iff k j, is_listed-insert k j v m)

  insert-Distinct :
      (k : String) (v : V) (m : List (String × V)) → Distinct m → Distinct (insert k v m)
  unfolding insert
  insert-Distinct k v [] h = (refl, tt)
  insert-Distinct k v ((i, w) ∷ m) h = elim (Bool-cases (str_eq i k)) [
    | inl e ↦ rw e (subst (λ j. is_listed j m ≡ false) ((str_eq_iff i k).0 e) h.0, h.1)
    | inr e ↦ rw e (
      is_listed-insert k i v m ∙ ground (arith, h.0, str_eq_iff i k, str_eq_iff k i),
      insert-Distinct k v m h.1,
    )
  ]

  insert-All :
      (P : String × V → Type 0) (k : String) (v : V) (m : List (String × V))
      → P (k, v)
      → All P m
      → All P (insert k v m)
  unfolding insert
  insert-All P k v [] h hs = (h, tt)
  insert-All P k v ((i, w) ∷ m) h hs = elim (Bool-cases (str_eq i k)) [
    | inl e ↦ rw e (h, hs.1)
    | inr e ↦ rw e (hs.0, insert-All P k v m h hs.1)
  ]

-- A map of maps names no key twice.
abbrev IsMap : Stats → Type 0
IsMap out = Distinct out × All (λ e. Distinct e.1) out

lookup-Distinct :
    (u : String) (out : Stats) (ps : List (String × UserProblemStat))
    → All (λ e. Distinct e.1) out
    → lookup u out ≡ some ps
    → Distinct ps
unfolding lookup
lookup-Distinct u [] ps h e = absurd (cc)
lookup-Distinct u ((v, qs) ∷ out) ps h e = elim (Bool-cases (str_eq v u)) [
  | inl k ↦ let same : qs ≡ ps = ground (arith, k, e) in rw same at h.0
  | inr k ↦ lookup-Distinct u out ps h.1 (rw k at e)
]

problems_of-Distinct :
    (u : String) (out : Stats) → All (λ e. Distinct e.1) out → Distinct (problems_of u out)
unfolding problems_of
problems_of-Distinct u out h = elim (Option-cases (lookup u out)) [
  | inl e ↦ let empty : problems_of u out ≡ [] = ground (arith, e) in rw empty tt
  | inr (ps, e) ↦
      let same : problems_of u out ≡ ps = ground (arith, e) in
      rw same (lookup-Distinct u out ps h e)
]

set_stat-IsMap :
    (u p : String) (st : UserProblemStat) (out : Stats) → IsMap out → IsMap (set_stat u p st out)
unfolding set_stat
set_stat-IsMap u p st out h =
    let ps = insert p st (problems_of u out) in
    (
      insert-Distinct u ps out h.0,
      insert-All (λ e. Distinct e.1) u ps out
          (insert-Distinct p st (problems_of u out) (problems_of-Distinct u out h.1)) h.1,
    )

add_solved-IsMap : (out : Stats) (rows : List Row) → IsMap out → IsMap (add_solved out rows)
unfolding add_solved
add_solved-IsMap out [] h = h
add_solved-IsMap out (x ∷ rows) h =
    add_solved-IsMap (set_stat x.user_id x.problem_id (stat_of x) out) rows
      (set_stat-IsMap x.user_id x.problem_id (stat_of x) out h)

set_count-IsMap :
    (out : Stats) (g : Group) (old : Option UserProblemStat)
    → IsMap out
    → IsMap (set_count out g old)
unfolding set_count
set_count-IsMap out g none h = h
set_count-IsMap out g (some st) h = set_stat-IsMap g.user_id g.problem_id _ out h

add_attempts-IsMap : (out : Stats) (gs : List Group) → IsMap out → IsMap (add_attempts out gs)
unfolding add_attempts set_attempts
add_attempts-IsMap out [] h = h
add_attempts-IsMap out (g ∷ gs) h =
    add_attempts-IsMap (set_attempts out g) gs
      (set_count-IsMap out g (find_stat g.user_id g.problem_id out) h)

contest_stats-IsMap :
    (db : Db) (contest : String) (tallied : Bool) (stats : Stats)
    → contest_stats (true, tallied) db contest ≡ ok stats
    → IsMap stats
unfolding contest_stats
contest_stats-IsMap db contest true stats e =
    let solved = distinct_on (order_by cpu_first (filter (is_solved contest) db.rows)) in
    let groups = group_by (filter (is_rejected contest) db.rows) in
    let same : add_attempts (add_solved [] solved) groups ≡ stats = cc in
    subst IsMap same
      (add_attempts-IsMap (add_solved [] solved) groups (add_solved-IsMap [] solved (tt, tt)))
contest_stats-IsMap db contest false stats e =
    let solved = distinct_on (order_by cpu_first (filter (is_solved contest) db.rows)) in
    let same : add_solved [] solved ≡ stats = cc in
    subst IsMap same (add_solved-IsMap [] solved (tt, tt))

-- After `handleRebuild`, which is answered 200, a participant with a solved problem is in the
-- sorted set of the contest with the score that `RankScore` gives the stats of `ContestStats`,
-- whatever else the board held; the boards of other contests are as they were. The board’s runs
-- belong to participants of the stats, the mode is speed or ICPC, the penalties add up to an int64
-- and, in ICPC mode, no solve precedes the start.
pub handle_rebuild-rank_score :
    (c : Contest) (tallied : Bool) (db : Db) (boards : String → Board) (stats : Stats) (u : String)
    (ps : List (String × UserProblemStat))
    → contest_stats (true, tallied) db c.id ≡ ok stats
    → lookup u stats ≡ some ps
    → IsCovered (boards c.id) stats
    → All (IsTimed c.scoring_mode c.starts_at) (stats_of ps)
    → IsInt64 (script_penalty c.scoring_mode (pos 0) (solved_runs c.starts_at ps))
    → 0 < count (solved_runs c.starts_at ps)
    → (after : String → Board) × (handle_rebuild (some c) (true, tallied) db boards
        ≡ (after, 200, length stats))
      × (lookup u (after c.id).zset ≡ some (rank_score c.scoring_mode (stats_of ps) c.starts_at))
      × ((other : String) → str_eq other c.id ≡ false → after other ≡ boards other)
unfolding handle_rebuild rebuilt
handle_rebuild-rank_score c tallied db boards stats u ps e l covered timed small solves =
    let map = contest_stats-IsMap db c.id tallied stats e in
    let after : String → Board = λ id.
      if str_eq id c.id
      then rebuild (boards c.id) stats c.scoring_mode c.starts_at
      else boards id in
    (
      after,
      ap (rebuilt c boards) e,
      rw ((str_eq_iff c.id c.id).1 refl) (
          rebuild-rank_score c.scoring_mode c.starts_at (boards c.id) stats u ps covered map.0 l
            (lookup-Distinct u stats ps map.1 l) timed small solves),
      λ other ne. rw ne refl,
    )
