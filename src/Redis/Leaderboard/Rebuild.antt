-- ===== src/Redis/Leaderboard/Rebuild.antt =====
-- `Rebuild` makes the board from the durable stats.
use mathlib.Core.List.{append-nil, append_assoc}
use arena.Common.{
  ◌<◌, ℤ, pos, IsInt64, String, str_eq, str_eq_iff, false, ◌≡◌, refl, sym, ap, ◌∙◌, none, some,
  List, [], ◌∷◌, ◌++◌, All, if◌then◌else◌, arith, Bool-cases, inl, inr,
}
use arena.Core.Scoring.{ScoreMode, UserProblemStat, rank_score}
use arena.Redis.Leaderboard.{
  Run, lookup, insert, Board, improves, record_run, count, script_penalty, script_score,
  apply_script, run_of, apply, apply_problems, apply_users, is_listed, clear, rebuild,
}
use arena.Redis.Leaderboard.Best.{IsScored, apply-IsScored, score_of}
use arena.Redis.Leaderboard.Refines.{solved_runs, stats_of, IsTimed, script_score-rank_score}

-- The keys are different, as the keys of a map are.
abbrev pub Distinct {ℓ} : {V : Type ℓ} → List (String × V) → Type 0
Distinct [] = Unit
Distinct ((k, v) ∷ rest) = (is_listed k rest ≡ false) × Distinct rest

-- No problem of the list has a run yet.
abbrev Absent : List (String × Run) → List (String × UserProblemStat) → Type 0
Absent runs = All (λ q. lookup q.0 runs ≡ none)

insert-absent :
    (p : String) (run : Run) (runs : List (String × Run))
    → lookup p runs ≡ none
    → insert p run runs ≡ runs ++ (p, run) ∷ []
unfolding lookup insert
insert-absent p run [] h = refl
insert-absent p run ((q, r) ∷ runs) h = ground (arith, insert-absent p run runs)

record_run-absent :
    (p : String) (run : Run) (runs : List (String × Run))
    → lookup p runs ≡ none
    → record_run p run runs ≡ runs ++ (p, run) ∷ []
unfolding record_run improves
record_run-absent p run runs h = rw h (insert-absent p run runs h)

lookup-append :
    (q p : String) (run : Run) (runs : List (String × Run))
    → lookup q runs ≡ none
    → str_eq p q ≡ false
    → lookup q (runs ++ (p, run) ∷ []) ≡ none
unfolding lookup
lookup-append q p run [] h e = rw e
lookup-append q p run ((s, r) ∷ runs) h e = ground (arith, lookup-append q p run runs)

Absent-append :
    (p : String) (run : Run) (runs : List (String × Run)) (ps : List (String × UserProblemStat))
    → Absent runs ps
    → is_listed p ps ≡ false
    → Absent (runs ++ (p, run) ∷ []) ps
Absent-append p run runs [] h e = tt
Absent-append p run runs ((q, st) ∷ ps) h e = (
  lookup-append q p run runs h.0 (ground (arith, str_eq_iff q p, str_eq_iff p q)),
  Absent-append p run runs ps h.1 (ground arith),
)

module _ (mode : ScoreMode) (start : ℤ) where
  stats-apply :
      (b : Board) (u p : String) (st : UserProblemStat)
      → lookup p (b.stats u) ≡ none
      → (apply b u p st mode start).stats u
        ≡ (if st.solved then b.stats u ++ (p, run_of st start) ∷ [] else b.stats u)
  unfolding apply apply_script
  stats-apply b u p st h =
      ground (arith, record_run-absent p (run_of st start) (b.stats u), str_eq_iff u u)

  stats-apply_problems :
      (b : Board) (u : String) (ps : List (String × UserProblemStat))
      → Distinct ps
      → Absent (b.stats u) ps
      → (apply_problems b u ps mode start).stats u ≡ b.stats u ++ solved_runs start ps
  unfolding apply_problems solved_runs
  stats-apply_problems b u [] d h = sym (append-nil _)
  stats-apply_problems b u ((p, st) ∷ ps) d h = elim (Bool-cases st.solved) [
    | inl e ↦
        let b' = apply b u p st mode start in
        let one : b'.stats u ≡ b.stats u ++ (p, run_of st start) ∷ [] =
          stats-apply b u p st h.0 ∙ simp e in
        simp e (
          stats-apply_problems b' u ps d.1
            (rw one (Absent-append p (run_of st start) (b.stats u) ps h.1 d.0))
          ∙ ap (λ runs. runs ++ solved_runs start ps) one
          ∙ append_assoc (b.stats u) ((p, run_of st start) ∷ []) (solved_runs start ps))
    | inr e ↦
        let b' = apply b u p st mode start in
        let same : b'.stats u ≡ b.stats u = stats-apply b u p st h.0 ∙ simp e in
        simp e (
          stats-apply_problems b' u ps d.1 (rw same h.1)
          ∙ ap (λ runs. runs ++ solved_runs start ps) same)
  ]

  -- Other participants.
  stats-apply_ne :
      (b : Board) (u v p : String) (st : UserProblemStat)
      → str_eq u v ≡ false
      → (apply b v p st mode start).stats u ≡ b.stats u
  unfolding apply apply_script
  stats-apply_ne b u v p st h = ground arith

  stats-apply_problems_ne :
      (b : Board) (u v : String) (ps : List (String × UserProblemStat))
      → str_eq u v ≡ false
      → (apply_problems b v ps mode start).stats u ≡ b.stats u
  unfolding apply_problems
  stats-apply_problems_ne b u v [] h = refl
  stats-apply_problems_ne b u v ((p, st) ∷ ps) h =
      stats-apply_problems_ne (apply b v p st mode start) u v ps h ∙ stats-apply_ne b u v p st h

  stats-apply_users_ne :
      (b : Board) (u : String) (us : List (String × List (String × UserProblemStat)))
      → is_listed u us ≡ false
      → (apply_users b us mode start).stats u ≡ b.stats u
  unfolding apply_users
  stats-apply_users_ne b u [] h = refl
  stats-apply_users_ne b u ((v, ps) ∷ us) h =
      stats-apply_users_ne (apply_problems b v ps mode start) u us (ground arith)
      ∙ stats-apply_problems_ne b u v ps (ground (arith, str_eq_iff u v, str_eq_iff v u))

  Absent-nil : (ps : List (String × UserProblemStat)) → Absent [] ps
  Absent-nil [] = tt
  Absent-nil (p ∷ ps) = (unfold lookup in refl, Absent-nil ps)

  stats-apply_users :
      (b : Board) (u : String) (us : List (String × List (String × UserProblemStat)))
      (ps : List (String × UserProblemStat))
      → Distinct us
      → lookup u us ≡ some ps
      → Distinct ps
      → b.stats u ≡ []
      → (apply_users b us mode start).stats u ≡ solved_runs start ps
  unfolding apply_users lookup
  stats-apply_users b u [] ps d l dp e = cc
  stats-apply_users b u ((v, qs) ∷ us) ps d l dp e = elim (Bool-cases (str_eq v u)) [
    | inl here ↦
        let b' = apply_problems b u ps mode start in
        let qs_ps : qs ≡ ps = ground arith in
        let v_u : v ≡ u = (str_eq_iff v u).0 here in
        rw (v_u, qs_ps)
          (stats-apply_users_ne b' u us (rw v_u at d.0)
            ∙ stats-apply_problems b u ps dp (rw e (Absent-nil ps))
            ∙ ap (λ runs. runs ++ solved_runs start ps) e)
    | inr other ↦
        stats-apply_users (apply_problems b v qs mode start) u us ps d.1 (rw other at l) dp
          (stats-apply_problems_ne b u v qs (ground (arith, str_eq_iff u v, str_eq_iff v u)) ∙ e)
  ]

  apply_problems-IsScored :
      (b : Board) (u : String) (ps : List (String × UserProblemStat))
      → IsScored mode b
      → IsScored mode (apply_problems b u ps mode start)
  unfolding apply_problems
  apply_problems-IsScored b u [] h = h
  apply_problems-IsScored b u ((p, st) ∷ ps) h =
      apply_problems-IsScored (apply b u p st mode start) u ps
        (apply-IsScored b u p st mode start h)

  apply_users-IsScored :
      (b : Board) (us : List (String × List (String × UserProblemStat)))
      → IsScored mode b
      → IsScored mode (apply_users b us mode start)
  unfolding apply_users
  apply_users-IsScored b [] h = h
  apply_users-IsScored b ((u, ps) ∷ us) h =
      apply_users-IsScored (apply_problems b u ps mode start) us (apply_problems-IsScored b u ps h)

-- Only participants of the durable stats have runs on the board.
abbrev pub IsCovered : Board → List (String × List (String × UserProblemStat)) → Type 0
IsCovered b us = (u : String) → is_listed u us ≡ false → b.stats u ≡ []

clear-stats :
    (b : Board) (us : List (String × List (String × UserProblemStat)))
    → IsCovered b us
    → (u : String) → (clear b us).stats u ≡ []
unfolding clear
clear-stats b us h u = ground (arith, h u)

clear-IsScored :
    (mode : ScoreMode) (b : Board) (us : List (String × List (String × UserProblemStat)))
    → IsCovered b us
    → IsScored mode (clear b us)
unfolding lookup
clear-IsScored mode b us h = record {
  at_user = λ u. rw (clear-stats b us h u) (unfold clear in refl);
}

-- After `Rebuild` of a board whose runs all belong to participants of the durable stats, whatever
-- else it held, a participant with a solved problem is in the sorted set with the score that
-- `RankScore` gives their stats. The stats name no user or problem twice, the penalties add up to
-- an int64 and, in ICPC mode, no solve precedes the start.
pub rebuild-rank_score :
    (mode : ScoreMode) (start : ℤ) (b : Board)
    (us : List (String × List (String × UserProblemStat))) (u : String)
    (ps : List (String × UserProblemStat))
    → IsCovered b us
    → Distinct us
    → lookup u us ≡ some ps
    → Distinct ps
    → All (IsTimed mode start) (stats_of ps)
    → IsInt64 (script_penalty mode (pos 0) (solved_runs start ps))
    → 0 < count (solved_runs start ps)
    → lookup u (rebuild b us mode start).zset ≡ some (rank_score mode (stats_of ps) start)
unfolding rebuild
rebuild-rank_score mode start b us u ps c d l dp t i s =
    (apply_users-IsScored mode start (clear b us) us (clear-IsScored mode b us c)).at_user u
    ∙ ap (score_of mode)
        (stats-apply_users mode start (clear b us) u us ps d l dp (clear-stats b us c u))
    ∙ score_of-some mode (solved_runs start ps) s
    ∙ ap some (script_score-rank_score mode start ps t i)
  where
    score_of-some :
        (mode : ScoreMode) (runs : List (String × Run))
        → 0 < count runs
        → score_of mode runs ≡ some (script_score mode runs)
    score_of-some mode [] h = absurd (omega arith)
    score_of-some mode (r ∷ runs) h = refl
