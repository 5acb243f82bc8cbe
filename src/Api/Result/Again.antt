-- ===== src/Api/Result/Again.antt =====
-- `afterVerdict` run again on a report of the same outcome.
use arena.Common.{
  ℤ, ◌≤ℤ◌, String, str_eq, str_eq_iff, true, false, ◌≡◌, refl, sym, ap, ◌∙◌, Option, none, some,
  if◌then◌else◌, arith, Bool-cases, Option-cases, inl, inr, ◌⊎◌, subst,
}
use arena.Core.Limits.{Multiplier}
use arena.Core.Job.{SubmissionResult}
use arena.Core.Scoring.{UserProblemStat, ScoreMode}
use arena.Langs.Manifest.{Manifest}
use arena.Langs.Registry.{get}
use arena.Redis.Leaderboard.{Run, Board, lookup, run_of, apply}
use arena.Redis.Leaderboard.Best.{better, apply-stats, IsScored, apply-IsScored, apply-stale}
use arena.Store.{Row, find_row, has_id}
use arena.Store.Final.{rows-put, put-put}
use arena.Api.World.{Problem, Contest, World, Server}
use arena.Api.Result.{
  is_ac, set_board, accepted_stat, verdict_cache_key, cache_verdict, move_board, after_verdict,
  publish_event, settle, release_in_flight,
}

-- Two boards that a participant cannot tell apart: the same runs and the same scores.
abbrev pub SameStandings : Board → Board → Type 0
SameStandings a b = (u : String) → (a.stats u ≡ b.stats u) × (lookup u a.zset ≡ lookup u b.zset)

better-le : (o : Option Run) (run : Run) → (better o run).cpu ≤ℤ run.cpu
better-le none run = omega arith
better-le (some old) run = ground arith

-- Two runs of `Apply` with one CPU time: the second changes nothing.
apply-apply :
    (b : Board) (user problem : String) (st st' : UserProblemStat) (mode : ScoreMode) (start : ℤ)
    → IsScored mode b
    → st.solved ≡ true
    → st.best_cpu_ms ≡ st'.best_cpu_ms
    → SameStandings
        (apply (apply b user problem st mode start) user problem st' mode start)
        (apply b user problem st mode start)
apply-apply b user problem st st' mode start h s e =
    let run = run_of st start in
    apply-stale (apply b user problem st mode start) user problem st' mode start
      (better (lookup problem (b.stats user)) run) (apply-IsScored b user problem st mode start h)
      (apply-stats b user problem st mode start user problem s
        ∙ ground (arith, str_eq_iff user user, str_eq_iff problem problem))
      (ground (arith, better-le (lookup problem (b.stats user)) run, run_cpu st start))
  where
    run_cpu : (st : UserProblemStat) (start : ℤ) → (run_of st start).cpu ≡ st.best_cpu_ms
    run_cpu st start = unfold run_of in refl

pub SameStandings-subst :
    {a a' b b' : Board} → a ≡ a' → b ≡ b' → SameStandings a' b' → SameStandings a b
SameStandings-subst {a} {a'} {b} {b'} e f h =
    subst (λ x. SameStandings x b) (sym e) (subst (λ y. SameStandings a' y) (sym f) h)

module _ (fl : Multiplier) (srv : Server fl) where
  open fl use {Float}

  -- What a report leaves behind once it is saved and its submission and problem are found.
  abbrev pub settled : World Float → Row → SubmissionResult → Problem Float → World Float
  settled w sub res p = release_in_flight (after_verdict fl srv w sub res p) sub.user_id

  abbrev pub Found : World Float → SubmissionResult → Row → Problem Float → Type 0
  Found w res sub p =
      (find_row (has_id res.submission_id) w.db.rows ≡ some sub)
      × (srv.problem sub.problem_id ≡ some p)

  pub settle-settled :
      (w : World Float) (res : SubmissionResult) (sub : Row) (p : Problem Float)
      → Found w res sub p
      → settle fl srv w res ≡ (settled w sub res p, 204)
  unfolding settle
  settle-settled w res sub p (e, h) = ground arith

  pub settle-Found :
      (w w' : World Float) (res : SubmissionResult)
      → settle fl srv w res ≡ (w', 204)
      → (sub : Row) × (p : Problem Float) × Found w res sub p × (w' ≡ settled w sub res p)
  unfolding settle
  settle-Found w w' res h = elim (Option-cases (find_row (has_id res.submission_id) w.db.rows)) [
    | inl e ↦ absurd (ground arith)
    | inr (sub, e) ↦ elim (Option-cases (srv.problem sub.problem_id)) [
      | inl f ↦ absurd (ground arith)
      | inr (p, f) ↦ (sub, p, (e, f), ground arith)
    ]
  ]

  pub settled-db :
      (w : World Float) (sub : Row) (res : SubmissionResult) (p : Problem Float)
      → (settled w sub res p).db ≡ (cache_verdict fl srv w sub res p).db
  unfolding release_in_flight after_verdict move_board publish_event set_board
  settled-db w sub res p = ground arith

  pub cache_verdict-rows :
      (w : World Float) (sub : Row) (res : SubmissionResult) (p : Problem Float)
      → (cache_verdict fl srv w sub res p).db.rows ≡ w.db.rows
  unfolding cache_verdict
  cache_verdict-rows w sub res p = elim (Option-cases (get srv.langs sub.language)) [
    | inl e ↦ ground arith
    | inr (m, e) ↦ ground (arith, rows-put w.db (verdict_cache_key fl srv sub res p m) res)
  ]

  same_key :
      (sub : Row) (res res' : SubmissionResult) (p : Problem Float) (m : Manifest Float)
      → res'.image_digest ≡ res.image_digest
      → verdict_cache_key fl srv sub res' p m ≡ verdict_cache_key fl srv sub res p m
  unfolding verdict_cache_key
  same_key sub res res' p m e = rw e refl

  pub cache_verdict-again :
      (w w' : World Float) (sub : Row) (res res' : SubmissionResult) (p : Problem Float)
      → res'.verdict ≡ res.verdict
      → res'.image_digest ≡ res.image_digest
      → w'.db ≡ (cache_verdict fl srv w sub res p).db
      → (cache_verdict fl srv w' sub res' p).db ≡ w'.db
  unfolding cache_verdict
  cache_verdict-again w w' sub res res' p v k e = elim (Option-cases (get srv.langs sub.language)) [
    | inl f ↦ ground arith
    | inr (m, f) ↦ ground (
      arith,
      put-put w.db (verdict_cache_key fl srv sub res p m) res res',
      same_key sub res res' p m k,
    )
  ]

  pub settled-boards :
      (w : World Float) (sub : Row) (res : SubmissionResult) (p : Problem Float)
      → (settled w sub res p).boards ≡ (move_board fl srv w sub res p).boards
  unfolding release_in_flight after_verdict cache_verdict publish_event move_board set_board
  settled-boards w sub res p = ground arith

  -- The board of a contest after an accepted report on the problem of another one, or the same.
  abbrev pub moved :
      (String → Board) → Row → SubmissionResult → Problem Float → Contest → String → Board
  moved boards sub res p k c =
      if str_eq c p.contest_id
      then apply (boards p.contest_id) sub.user_id p.id (accepted_stat res) k.scoring_mode
          k.starts_at
      else boards c

  pub move_board-moved :
      (w : World Float) (sub : Row) (res : SubmissionResult) (p : Problem Float) (k : Contest)
      (c : String)
      → is_ac res.verdict ≡ true
      → srv.contest p.contest_id ≡ some k
      → (move_board fl srv w sub res p).boards c ≡ moved w.boards sub res p k c
  unfolding move_board set_board publish_event
  move_board-moved w sub res p k c a e = ground arith

  pub move_board-still :
      (w : World Float) (sub : Row) (res : SubmissionResult) (p : Problem Float)
      → (is_ac res.verdict ≡ false) ⊎ (srv.contest p.contest_id ≡ none)
      → (move_board fl srv w sub res p).boards ≡ w.boards
  unfolding move_board set_board publish_event
  move_board-still w sub res p (inl a) = ground arith
  move_board-still w sub res p (inr e) = ground arith

  moved-again :
      (boards boards' : String → Board) (sub : Row) (res res' : SubmissionResult)
      (p : Problem Float) (k : Contest) (c : String)
      → res'.cpu_ms ≡ res.cpu_ms
      → IsScored k.scoring_mode (boards p.contest_id)
      → ((c : String) → boards' c ≡ moved boards sub res p k c)
      → SameStandings (moved boards' sub res' p k c) (boards' c)
  unfolding accepted_stat
  moved-again boards boards' sub res res' p k c e s h = elim (Bool-cases (str_eq c p.contest_id)) [
    | inl f ↦
        SameStandings-subst (ground (arith, h p.contest_id, str_eq_iff p.contest_id p.contest_id))
          (ground (arith, h c))
          (apply-apply (boards p.contest_id) sub.user_id p.id (accepted_stat res)
            (accepted_stat res') k.scoring_mode k.starts_at s refl (sym e))
    | inr f ↦ SameStandings-subst {b = boards' c} (ground arith) refl (λ u. (refl, refl))
  ]

  pub move_board-again :
      (w w' : World Float) (sub : Row) (res res' : SubmissionResult) (p : Problem Float)
      → res'.verdict ≡ res.verdict
      → res'.cpu_ms ≡ res.cpu_ms
      → ((c : String) (k : Contest) → srv.contest c ≡ some k → IsScored k.scoring_mode (w.boards c))
      → w'.boards ≡ (move_board fl srv w sub res p).boards
      → (c : String) → SameStandings ((move_board fl srv w' sub res' p).boards c) (w'.boards c)
  move_board-again w w' sub res res' p v t h e c = elim (Bool-cases (is_ac res.verdict)) [
    | inr a ↦ still (inl (ap is_ac v ∙ a))
    | inl a ↦ elim (Option-cases (srv.contest p.contest_id)) [
      | inl f ↦ still (inr f)
      | inr (k, f) ↦
          SameStandings-subst (move_board-moved w' sub res' p k c (ap is_ac v ∙ a) f) refl (
            moved-again w.boards w'.boards sub res res' p k c t (h p.contest_id k f)
              (λ c. ap (λ b. b c) e ∙ move_board-moved w sub res p k c a f))
    ]
  ]
    where
      still :
          (is_ac res'.verdict ≡ false) ⊎ (srv.contest p.contest_id ≡ none)
          → SameStandings ((move_board fl srv w' sub res' p).boards c) (w'.boards c)
      still o =
          SameStandings-subst (ap (λ b. b c) (move_board-still w' sub res' p o)) refl
            (λ u. (refl, refl))
