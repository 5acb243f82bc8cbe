-- ===== src/Runner/Once.antt =====
-- Retried reports: whatever becomes of the answers, the server is where one report would leave it.
use arena.Common.{
  ℕ, zero, suc, ℤ, String, str_eq, str_eq_iff, Bool, true, false, ◌≡◌, refl, ap, sym, subst, ◌∙◌,
  Option, none, some, arith, inl, inr, ◌⊎◌, if◌then◌else◌, Bool-cases, Option-cases,
}
use arena.Core.Limits.{Multiplier}
use arena.Core.Verdict.{done}
use arena.Core.Job.{SubmissionResult}
use arena.Store.{Row}
use arena.Redis.Leaderboard.{Board, apply}
use arena.Redis.Leaderboard.Best.{IsScored, apply-IsScored}
use arena.Api.World.{Problem, Contest, World, Server}
use arena.Api.Result.{is_ac, move_board, or_done, accepted_stat, handle_result}
use arena.Api.Result.Again.{
  SameStandings, settled, settled-boards, settle-Found, moved, move_board-moved, move_board-still,
}
use arena.Api.Result.Duplicate.{stamped, handle_result-saved, handle_result-duplicate}
use arena.Runner.{Sent, unreachable, answered, cut_off, Try, post, is_success, report_from, report}

module _ (fl : Multiplier) (srv : Server fl) where
  open fl use {Float}

  -- The scores of all boards agree with their runs.
  abbrev pub BoardsScored : World Float → Type 0
  BoardsScored w =
      (c : String) (k : Contest) → srv.contest c ≡ some k → IsScored k.scoring_mode (w.boards c)

  -- The same tables, and boards that a participant cannot tell apart.
  abbrev pub SameOutcome : World Float → World Float → Type 0
  SameOutcome v w = (v.db ≡ w.db) × ((c : String) → SameStandings (v.boards c) (w.boards c))

  SameStandings-trans : (a b c : Board) → SameStandings a b → SameStandings b c → SameStandings a c
  SameStandings-trans a b c h k u = ((h u).0 ∙ (k u).0, (h u).1 ∙ (k u).1)

  moved-IsScored :
      (boards : String → Board) (sub : Row) (res : SubmissionResult) (p : Problem Float)
      (k : Contest) (c : String) (k' : Contest)
      → srv.contest p.contest_id ≡ some k
      → srv.contest c ≡ some k'
      → IsScored k.scoring_mode (boards p.contest_id)
      → IsScored k'.scoring_mode (boards c)
      → IsScored k'.scoring_mode (moved fl srv boards sub res p k c)
  moved-IsScored boards sub res p k c k' e e' h h' = chosen (str_eq c p.contest_id) (λ f.
      let id : c ≡ p.contest_id = (str_eq_iff c p.contest_id).0 f in
      let both = sym e ∙ sym (ap srv.contest id) ∙ e' in
      let same : some k.scoring_mode ≡ some k'.scoring_mode =
        ap (λ o. elim o [ none ↦ none | some x ↦ some x.scoring_mode ]) both in
      let mode : k.scoring_mode ≡ k'.scoring_mode = ground arith in
      subst (λ m. IsScored m (scored_board k)) mode
        (apply-IsScored (boards p.contest_id) sub.user_id p.id (accepted_stat res) k.scoring_mode
          k.starts_at h))
    where
      scored_board : Contest → Board
      scored_board k =
          apply (boards p.contest_id) sub.user_id p.id (accepted_stat res) k.scoring_mode
            k.starts_at

      chosen :
          (b : Bool)
          → (b ≡ true → IsScored k'.scoring_mode (scored_board k))
          → IsScored k'.scoring_mode (if b then scored_board k else boards c)
      chosen true f = f refl
      chosen false f = h'

  settled-BoardsScored :
      (w : World Float) (sub : Row) (res : SubmissionResult) (p : Problem Float)
      → BoardsScored w
      → BoardsScored (settled fl srv w sub res p)
  settled-BoardsScored w sub res p h c k' e' =
      subst (λ b. IsScored k'.scoring_mode (b c)) (sym (settled-boards fl srv w sub res p))
        (elim (Bool-cases (is_ac res.verdict)) [
          | inr a ↦ still (inl a)
          | inl a ↦ elim (Option-cases (srv.contest p.contest_id)) [
            | inl f ↦ still (inr f)
            | inr (k, f) ↦
                subst (λ b. IsScored k'.scoring_mode b)
                  (sym (move_board-moved fl srv w sub res p k c a f))
                  (moved-IsScored w.boards sub res p k c k' f e' (h p.contest_id k f) (h c k' e'))
          ]
        ])
    where
      still :
          (is_ac res.verdict ≡ false) ⊎ (srv.contest p.contest_id ≡ none)
          → IsScored k'.scoring_mode ((move_board fl srv w sub res p).boards c)
      still o =
          subst (λ b. IsScored k'.scoring_mode (b c)) (sym (move_board-still fl srv w sub res p o))
            (h c k' e')

  handle_result-BoardsScored :
      (w w1 : World Float) (body : SubmissionResult) (now : ℤ)
      → BoardsScored w
      → handle_result fl srv w (some body) now ≡ (w1, 204)
      → BoardsScored w1
  handle_result-BoardsScored w w1 body now h e =
      let (db, n, s, t) = handle_result-saved fl srv w w1 body now e in
      let (sub, p, f, eq) =
        settle-Found fl srv (record w { db = db }) w1 (stamped fl srv body now) t in
      subst BoardsScored (sym eq)
        (settled-BoardsScored (record w { db = db }) sub (stamped fl srv body now) p h)

  -- What holds between two requests, the first of which was served at `now`.
  abbrev Served : World Float → SubmissionResult → ℤ → World Float → Type 0
  Served w body now u =
      ((prev : World Float) × (at : ℤ) × BoardsScored prev
        × (handle_result fl srv prev (some body) at ≡ (u, 204)))
      × SameOutcome u (handle_result fl srv w (some body) now).0

  Served-again :
      (w : World Float) (body : SubmissionResult) (now : ℤ) (u : World Float) (later : ℤ)
      → or_done body.status ≡ done
      → Served w body now u
      → Served w body now (handle_result fl srv u (some body) later).0
  Served-again w body now u later d ((prev, at, h, e), (same, standings)) =
      let (u2, e2, db_eq, st) = handle_result-duplicate fl srv prev u body at later d h e in
      let here : (handle_result fl srv u (some body) later).0 ≡ u2 = ap (λ x. x.0) e2 in
      subst (Served w body now) (sym here) (
        (u, later, handle_result-BoardsScored prev u body at h e, e2),
        (
          db_eq ∙ same,
          λ c.
              SameStandings-trans (u2.boards c) (u.boards c)
                ((handle_result fl srv w (some body) now).0.boards c) (st c) (standings c),
        ),
      )

  report_from-Served :
      (left attempt : ℕ) (link : ℕ → Try) (w : World Float) (body : SubmissionResult) (now : ℤ)
      (u : World Float)
      → or_done body.status ≡ done
      → Served w body now u
      → Served w body now (report_from fl srv left attempt link u body).0
  unfolding report_from
  report_from-Served zero attempt link w body now u d s = s
  report_from-Served (suc left) attempt link w body now u d s =
      ended (is_success fl srv (post fl srv ((link attempt).sent) u body ((link attempt).now)).1)
        ((link attempt).is_done) (posted ((link attempt).sent) ((link attempt).now))
        (report_from-Served left (suc attempt) link w body now next d
          (posted ((link attempt).sent) ((link attempt).now)))
    where
      next : World Float
      next = (post fl srv ((link attempt).sent) u body ((link attempt).now)).0

      posted : (sent : Sent) (later : ℤ) → Served w body now (post fl srv sent u body later).0
      posted unreachable later = s
      posted answered later = Served-again w body now u later d s
      posted cut_off later = Served-again w body now u later d s

      ended :
          (ok gone : Bool)
          → Served w body now next
          → Served w body now (report_from fl srv left (suc attempt) link next body).0
          → Served w body now
              (if ok
                then (next, true)
                else if gone
                then (next, false)
                else report_from fl srv left (suc attempt) link next body).0
      ended true gone a b = a
      ended false true a b = a
      ended false false a b = b

  -- Nothing was served, or the outcome is that of one served report.
  abbrev pub AtMostOnce : World Float → SubmissionResult → World Float → Type 0
  AtMostOnce w body u =
      (u ≡ w) ⊎ ((now : ℤ) × SameOutcome u (handle_result fl srv w (some body) now).0)

  report_from-once :
      (left attempt : ℕ) (link : ℕ → Try) (w : World Float) (body : SubmissionResult)
      → or_done body.status ≡ done
      → BoardsScored w
      → ((now : ℤ) → (handle_result fl srv w (some body) now).1 ≡ 204)
      → AtMostOnce w body (report_from fl srv left attempt link w body).0
  unfolding report_from
  report_from-once zero attempt link w body d h ok = inl refl
  report_from-once (suc left) attempt link w body d h ok =
      tried ((link attempt).sent) ((link attempt).now) ((link attempt).is_done)
        (report_from-once left (suc attempt) link w body d h ok)
    where
      first : (now : ℤ) → Served w body now (handle_result fl srv w (some body) now).0
      first now = (
        (w, now, h, ap (λ c. ((handle_result fl srv w (some body) now).0, c)) (ok now)),
        (refl, λ c u. (refl, refl)),
      )

      after :
          (now : ℤ) (code : Option ℕ) (gone : Bool)
          → AtMostOnce w body
              (if is_success fl srv code
                then ((handle_result fl srv w (some body) now).0, true)
                else if gone
                then ((handle_result fl srv w (some body) now).0, false)
                else report_from fl srv left
                    (suc attempt)
                    link
                    (handle_result fl srv w (some body) now).0
                    body).0
      after now code gone = ended (is_success fl srv code) gone
        where
          ended :
              (ok gone : Bool)
              → AtMostOnce w body
                  (if ok
                    then ((handle_result fl srv w (some body) now).0, true)
                    else if gone
                    then ((handle_result fl srv w (some body) now).0, false)
                    else report_from fl srv left
                        (suc attempt)
                        link
                        (handle_result fl srv w (some body) now).0
                        body).0
          ended true gone = inr (now, (first now).1)
          ended false true = inr (now, (first now).1)
          ended false false = inr (
            now,
            (report_from-Served left (suc attempt) link w body now
                (handle_result fl srv w (some body) now).0 d (first now)).1,
          )

      tried :
          (sent : Sent) (now : ℤ) (gone : Bool)
          → AtMostOnce w body (report_from fl srv left (suc attempt) link w body).0
          → AtMostOnce w body
              (if is_success fl srv (post fl srv sent w body now).1
                then ((post fl srv sent w body now).0, true)
                else if gone
                then ((post fl srv sent w body now).0, false)
                else report_from fl srv left
                    (suc attempt)
                    link
                    (post fl srv sent w body now).0
                    body).0
      tried unreachable now true a = inl refl
      tried unreachable now false a = a
      tried answered now gone a = after now (some (handle_result fl srv w (some body) now).1) gone
      tried cut_off now gone a = after now none gone

  -- However many of the four reports are served, and whichever answers are lost, the tables are as
  -- they were, or as one served report leaves them, and so are the standings of all contests: when
  -- the server accepts the report at any time, its status is DONE or empty, and the boards' scores
  -- agree with their runs.
  pub report-once :
      (link : ℕ → Try) (w : World Float) (body : SubmissionResult)
      → or_done body.status ≡ done
      → BoardsScored w
      → ((now : ℤ) → (handle_result fl srv w (some body) now).1 ≡ 204)
      → AtMostOnce w body (report fl srv link w body).0
  unfolding report
  report-once link w body d h ok = report_from-once 4 0 link w body d h ok
