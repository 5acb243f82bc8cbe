-- ===== src/Redis/Leaderboard/Best.antt =====
-- The board keeps each participant's best run of each problem, and scores what it keeps.
use arena.Common.{
  ℕ, ◌*◌, ◌<◌, ℤ, pos, negsuc, sub_ℕ, ◌≤ℤ◌, leb_ℤ, String, str_eq, str_eq_iff, true, ◌≡◌, refl, sym,
  ap, ◌∙◌, Option, none, some, List, [], ◌∷◌, if◌then◌else◌, arith,
}
use arena.Core.Scoring.{ScoreMode, UserProblemStat, zset_scale, saturate}
use arena.Redis.Leaderboard.{
  Run, lookup, insert, Board, improves, record_run, count, script_penalty, script_score,
  apply_script, run_of, apply, ceil_div,
}

module _ {ℓ} {V : Type ℓ} where
  pub lookup-insert :
      (k j : String) (v : V) (m : List (String × V))
      → lookup j (insert k v m) ≡ (if str_eq k j then some v else lookup j m)
  unfolding lookup insert
  lookup-insert k j v [] = refl
  lookup-insert k j v ((i, w) ∷ m) =
      ground (arith, str_eq_iff k j, str_eq_iff i k, str_eq_iff i j, lookup-insert k j v m)

-- What the script keeps of a run that is there and a new one.
abbrev pub better : Option Run → Run → Run
better none run = run
better (some old) run = if leb_ℤ old.cpu run.cpu then old else run

lookup-record_run :
    (problem p : String) (run : Run) (runs : List (String × Run))
    → lookup p (record_run problem run runs)
      ≡ (if str_eq problem p then some (better (lookup problem runs) run) else lookup p runs)
unfolding record_run improves
lookup-record_run problem p run runs =
    ground (arith, lookup-insert problem p run runs, str_eq_iff problem p)

-- `Apply` of an accepted run keeps, for this participant and problem, the run with the lower CPU
-- time, the older one on a tie; no other problem and no other participant's runs change.
pub apply-stats :
    (b : Board) (user problem : String) (st : UserProblemStat) (mode : ScoreMode) (start : ℤ)
    (u p : String)
    → st.solved ≡ true
    → lookup p ((apply b user problem st mode start).stats u) ≡ (
        if str_eq u user
        then (if str_eq problem p
            then some (better (lookup problem (b.stats user)) (run_of st start))
            else lookup p (b.stats user))
        else lookup p (b.stats u))
unfolding apply apply_script
apply-stats b user problem st mode start u p h =
    rw h (ground (arith, lookup-record_run problem p (run_of st start) (b.stats user)))

-- A participant with runs is in the sorted set with their score; one without is not.
abbrev pub score_of : ScoreMode → List (String × Run) → Option ℤ
score_of mode [] = none
score_of mode (r ∷ runs) = some (script_score mode (r ∷ runs))

pub record IsScored (mode : ScoreMode) (b : Board) : Type 0 where
  pub at_user : (u : String) → lookup u b.zset ≡ score_of mode (b.stats u)

record_run-some :
    (mode : ScoreMode) (problem : String) (run : Run) (runs : List (String × Run))
    → score_of mode (record_run problem run runs)
      ≡ some (script_score mode (record_run problem run runs))
unfolding record_run improves insert lookup
record_run-some mode problem run [] = refl
record_run-some mode problem run ((p, r) ∷ runs) = ground arith

-- `Apply` keeps every score of the sorted set equal to the score of the runs behind it.
pub apply-IsScored :
    (b : Board) (user problem : String) (st : UserProblemStat) (mode : ScoreMode) (start : ℤ)
    → IsScored mode b
    → IsScored mode (apply b user problem st mode start)
unfolding apply apply_script
apply-IsScored b user problem st mode start h = record {
  at_user = λ u. ground (
    arith,
    h.at_user u,
    lookup-insert user u (script_score mode (record_run problem (run_of st start) (b.stats user)))
        b.zset,
    record_run-some mode problem (run_of st start) (b.stats user),
    str_eq_iff user u,
    str_eq_iff u user,
  );
}

run_of-cpu : (st : UserProblemStat) (start : ℤ) → (run_of st start).cpu ≡ st.best_cpu_ms
unfolding run_of
run_of-cpu st start = refl

record_run-stale :
    (problem : String) (run old : Run) (runs : List (String × Run))
    → lookup problem runs ≡ some old
    → old.cpu ≤ℤ run.cpu
    → record_run problem run runs ≡ runs
unfolding record_run improves
record_run-stale problem run old runs e h = rw e (ground arith)

stats_stale :
    (b : Board) (user problem : String) (st : UserProblemStat) (mode : ScoreMode) (start : ℤ)
    (old : Run)
    → lookup problem (b.stats user) ≡ some old
    → old.cpu ≤ℤ st.best_cpu_ms
    → (u : String) → (apply b user problem st mode start).stats u ≡ b.stats u
unfolding apply apply_script
stats_stale b user problem st mode start old e le u = ground (
  arith,
  record_run-stale problem (run_of st start) old (b.stats user) e,
  run_of-cpu st start,
  str_eq_iff u user,
)

-- A repeated report, or a slower one, of a problem that the participant has solved moves nobody:
-- all runs and all scores are as before.
pub apply-stale :
    (b : Board) (user problem : String) (st : UserProblemStat) (mode : ScoreMode) (start : ℤ)
    (old : Run)
    → IsScored mode b
    → lookup problem (b.stats user) ≡ some old
    → old.cpu ≤ℤ st.best_cpu_ms
    → (u : String)
    → ((apply b user problem st mode start).stats u ≡ b.stats u)
      × (lookup u (apply b user problem st mode start).zset ≡ lookup u b.zset)
apply-stale b user problem st mode start old h e le u =
    let same = stats_stale b user problem st mode start old e le u in
    (
      same,
      (apply-IsScored b user problem st mode start h).at_user u
          ∙ ap (score_of mode) same
          ∙ sym (h.at_user u),
    )

saturate-lt : (p : ℤ) → saturate p < zset_scale
unfolding saturate
saturate-lt (pos n) = ground arith
saturate-lt (negsuc n) = omega arith

ceil_div-score : (n p : ℕ) → p < zset_scale → ceil_div (sub_ℕ (n * zset_scale) p) ≡ pos n
unfolding ceil_div
ceil_div-score n p h = ground arith

-- `Top` recovers from a score how many problems are solved, whatever the penalty is.
pub ceil_div-script_score :
    (mode : ScoreMode) (runs : List (String × Run))
    → ceil_div (script_score mode runs) ≡ pos (count runs)
unfolding script_score
ceil_div-script_score mode runs =
    ceil_div-score (count runs) _ (saturate-lt (script_penalty mode (pos 0) runs))
