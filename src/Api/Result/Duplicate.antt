-- ===== src/Api/Result/Duplicate.antt =====
-- Reports for a submission that is judged already.
use arena.Common.{ℤ, String, str_eq, str_eq_iff, false, ◌≡◌, refl, ap, ◌∙◌, some, arith, inl, inr}
use arena.Core.Limits.{Multiplier}
use arena.Core.Verdict.{ac, done}
use arena.Core.Job.{SubmissionResult}
use arena.Redis.Leaderboard.{lookup, run_of}
use arena.Redis.Leaderboard.Best.{better, apply-stats, IsScored}
use arena.Store.Rows.{DbResult-cases}
use arena.Store.{Row, Db, ok, find_row, has_id, any_row, is_unfinished, save_result}
use arena.Store.Final.{save_result-finishes, save_result_finished}
use arena.Api.World.{Problem, Contest, World, Server}
use arena.Api.Result.{is_ac, or_done, accepted_stat, settle, handle_result}
use arena.Api.Result.Again.{
  SameStandings, SameStandings-subst, settled, Found, settled-db, settle-settled, settle-Found,
  cache_verdict-rows, cache_verdict-again, settled-boards, move_board-moved, move_board-again,
}

module _ (fl : Multiplier) (srv : Server fl) where
  open fl use {Float}

  -- The report that `handleResult` stores.
  abbrev pub stamped : SubmissionResult → ℤ → SubmissionResult
  stamped body now = record body { status = or_done body.status; judged_at = now }

  pub handle_result-saved :
      (w w1 : World Float) (body : SubmissionResult) (now : ℤ)
      → handle_result fl srv w (some body) now ≡ (w1, 204)
      → (db : Db) × (str_eq body.submission_id "" ≡ false)
        × (save_result w.db (stamped body now) now ≡ ok db)
        × (settle fl srv (record w { db = db }) (stamped body now) ≡ (w1, 204))
  unfolding handle_result
  handle_result-saved w w1 body now e =
      elim (DbResult-cases (save_result w.db (stamped body now) now)) [
        | inl f ↦ absurd (ground arith)
        | inr (db, f) ↦ (db, ground arith, f, ground arith)
      ]

  handle_result_saved :
      (w : World Float) (body : SubmissionResult) (now : ℤ) (db : Db) (sub : Row)
      (p : Problem Float)
      → str_eq body.submission_id "" ≡ false
      → save_result w.db (stamped body now) now ≡ ok db
      → Found fl srv (record w { db = db }) body sub p
      → handle_result fl srv w (some body) now
        ≡ (settled fl srv (record w { db = db }) sub (stamped body now) p, 204)
  unfolding handle_result
  handle_result_saved w body now db sub p n s f =
      ground (arith, settle-settled fl srv (record w { db = db }) (stamped body now) sub p f)

  -- A report that is delivered again is answered 204 like the first one, writes no row, no test
  -- row and no cache entry, and moves no standing of any contest: when the first was answered 204
  -- and its status is DONE or empty, and the boards' scores agree with their runs.
  pub handle_result-duplicate :
      (w w1 : World Float) (body : SubmissionResult) (now later : ℤ)
      → or_done body.status ≡ done
      → ((c : String) (k : Contest) → srv.contest c ≡ some k → IsScored k.scoring_mode (w.boards c))
      → handle_result fl srv w (some body) now ≡ (w1, 204)
      → (w2 : World Float) × (handle_result fl srv w1 (some body) later ≡ (w2, 204))
        × (w2.db ≡ w1.db)
        × ((c : String) → SameStandings (w2.boards c) (w1.boards c))
  handle_result-duplicate w w1 body now later d h e =
      let (db, n, s, t) = handle_result-saved w w1 body now e in
      let (sub, p, (f, g), eq) =
        settle-Found fl srv (record w { db = db }) w1 (stamped body now) t in
      let db_eq =
        ap (λ v. v.db) eq ∙ settled-db fl srv (record w { db = db }) sub (stamped body now) p in
      let rows_eq =
        ap (λ d. d.rows) db_eq
        ∙ cache_verdict-rows fl srv (record w { db = db }) sub (stamped body now) p in
      (
        settled fl srv w1 sub (stamped body later) p,
        handle_result_saved w1 body later w1.db sub p n
            (save_result_finished w1.db (stamped body later) later
              (rw rows_eq (save_result-finishes w.db db (stamped body now) now d s)))
            (ap (find_row (has_id body.submission_id)) rows_eq ∙ f, g),
        settled-db fl srv w1 sub (stamped body later) p
            ∙ cache_verdict-again fl srv (record w { db = db }) w1 sub (stamped body now)
                (stamped body later) p refl refl db_eq,
        λ c.
            SameStandings-subst
              (ap (λ b. b c) (settled-boards fl srv w1 sub (stamped body later) p)) refl
              (move_board-again fl srv (record w { db = db }) w1 sub (stamped body now)
                (stamped body later) p refl refl h
                (ap (λ v. v.boards) eq
                  ∙ settled-boards fl srv (record w { db = db }) sub (stamped body now) p)
                c),
      )

  -- A later report that contradicts the stored one: when no row of the submission is unfinished and
  -- the report says AC, it is answered 204 and no row changes, the stored verdict included, but the
  -- leaderboard holds the better of the run that it had for the participant and problem, if any,
  -- and the reported one.
  pub handle_result-contradiction :
      (w : World Float) (body : SubmissionResult) (now : ℤ) (sub : Row) (p : Problem Float)
      (k : Contest)
      → str_eq body.submission_id "" ≡ false
      → any_row (is_unfinished body.submission_id) w.db.rows ≡ false
      → find_row (has_id body.submission_id) w.db.rows ≡ some sub
      → srv.problem sub.problem_id ≡ some p
      → srv.contest p.contest_id ≡ some k
      → body.verdict ≡ ac
      → (w' : World Float) × (handle_result fl srv w (some body) now ≡ (w', 204))
        × (w'.db.rows ≡ w.db.rows)
        × (lookup p.id ((w'.boards p.contest_id).stats sub.user_id)
            ≡ some (
                better
                  (lookup p.id ((w.boards p.contest_id).stats sub.user_id))
                  (run_of (accepted_stat (stamped body now)) k.starts_at)))
  unfolding is_ac accepted_stat
  handle_result-contradiction w body now sub p k n u f g c v = (
    settled fl srv w sub (stamped body now) p,
    handle_result_saved w body now w.db sub p n (save_result_finished w.db (stamped body now) now u)
        (f, g),
    ap (λ d. d.rows) (settled-db fl srv w sub (stamped body now) p)
        ∙ cache_verdict-rows fl srv w sub (stamped body now) p,
    ap (λ b. lookup p.id ((b p.contest_id).stats sub.user_id))
          (settled-boards fl srv w sub (stamped body now) p)
        ∙ ap (λ b. lookup p.id (b.stats sub.user_id))
            (move_board-moved fl srv w sub (stamped body now) p k p.contest_id (ap is_ac v) c)
        ∙ ground (
          arith,
          str_eq_iff p.contest_id p.contest_id,
          str_eq_iff p.id p.id,
          str_eq_iff sub.user_id sub.user_id,
          apply-stats (w.boards p.contest_id) sub.user_id p.id (accepted_stat (stamped body now))
              k.scoring_mode k.starts_at sub.user_id p.id refl,
        ),
  )
