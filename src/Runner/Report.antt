-- ===== src/Runner/Report.antt =====
-- `report` of cmd/runner/main.go against the server that it reports to.
use arena.Common.{
  ℕ, zero, suc, ℤ, String, str_eq, Bool, true, false, ◌&&◌, ◌||◌, not, ◌≡◌, refl, ap, ◌∙◌, none,
  some, arith, inl, inr, Bool-cases, Option-cases,
}
use arena.Core.Limits.{Multiplier}
use arena.Core.Verdict.{done}
use arena.Core.Job.{SubmissionResult}
use arena.Store.{
  Row, Db, ok, find_row, has_id, any_row, is_unfinished, are_texts, is_known_verdict,
  is_known_status, save_result,
}
use arena.Store.Rows.{DbResult-cases}
use arena.Store.Final.{save_result-finishes, save_result_finished}
use arena.Api.World.{World, Server}
use arena.Api.Result.{or_done, settle, handle_result}
use arena.Api.Result.Again.{settled-db, settle-settled, cache_verdict-rows}
use arena.Runner.{Sent, unreachable, answered, cut_off, Try, post, is_success, report_from, report}

abbrev pub is_served : Sent → Bool
is_served unreachable = false
is_served answered = true
is_served cut_off = true

-- Whether one of the tries from an attempt on is served, before the context ends.
abbrev pub reaches : ℕ → ℕ → (ℕ → Try) → Bool
reaches zero attempt link = false
reaches (suc left) attempt link =
    is_served ((link attempt).sent)
    || not ((link attempt).is_done) && reaches left (suc attempt) link

-- No row of the submission is unfinished.
abbrev pub IsFinished : {F : Type 0} → String → World F → Type 0
IsFinished id w = any_row (is_unfinished id) w.db.rows ≡ false

module _ (fl : Multiplier) (srv : Server fl) where
  open fl use {Float}

  abbrev stamped : SubmissionResult → ℤ → SubmissionResult
  stamped body now = record body { status = or_done body.status; judged_at = now }

  settle-rows :
      (w : World Float) (res : SubmissionResult) → (settle fl srv w res).0.db.rows ≡ w.db.rows
  settle-rows w res = elim (Option-cases (find_row (has_id res.submission_id) w.db.rows)) [
    | inl e ↦ no_row e
    | inr (sub, e) ↦ elim (Option-cases (srv.problem sub.problem_id)) [
      | inl f ↦ no_problem sub e f
      | inr (p, f) ↦
          ap (λ v. v.0.db.rows) (settle-settled fl srv w res sub p (e, f))
          ∙ ap (λ d. d.rows) (settled-db fl srv w sub res p)
          ∙ cache_verdict-rows fl srv w sub res p
    ]
  ]
    where
      no_row :
          find_row (has_id res.submission_id) w.db.rows ≡ none
          → (settle fl srv w res).0.db.rows ≡ w.db.rows
      no_row e = unfold settle in ground arith

      no_problem :
          (sub : Row)
          → find_row (has_id res.submission_id) w.db.rows ≡ some sub
          → srv.problem sub.problem_id ≡ none
          → (settle fl srv w res).0.db.rows ≡ w.db.rows
      no_problem sub e f = unfold settle in ground arith

  -- A report of an outcome that the tables accept is saved.
  save_result-ok :
      (db : Db) (body : SubmissionResult) (now : ℤ)
      → or_done body.status ≡ done
      → is_known_verdict body.verdict ≡ true
      → are_texts body ≡ true
      → (db' : Db) × (save_result db (stamped body now) now ≡ ok db')
  unfolding save_result is_known_status
  save_result-ok db body now d v t = elim (DbResult-cases (save_result db (stamped body now) now)) [
    | inl e ↦ absurd (ground arith)
    | inr found ↦ found
  ]

  handle_result-saved_rows :
      (w : World Float) (body : SubmissionResult) (now : ℤ) (db : Db)
      → str_eq body.submission_id "" ≡ false
      → save_result w.db (stamped body now) now ≡ ok db
      → (handle_result fl srv w (some body) now).0.db.rows ≡ db.rows
  unfolding handle_result
  handle_result-saved_rows w body now db n s =
      ground (arith, settle-rows (record w { db = db }) (stamped body now))

  -- A served report of a judged submission finishes it, and none takes that back.
  handle_result-IsFinished :
      (w : World Float) (body : SubmissionResult) (now : ℤ)
      → str_eq body.submission_id "" ≡ false
      → or_done body.status ≡ done
      → is_known_verdict body.verdict ≡ true
      → are_texts body ≡ true
      → IsFinished body.submission_id (handle_result fl srv w (some body) now).0
  handle_result-IsFinished w body now n d v t =
      let (db, s) = save_result-ok w.db body now d v t in
      ap (any_row (is_unfinished body.submission_id)) (handle_result-saved_rows w body now db n s)
      ∙ save_result-finishes w.db db (stamped body now) now d s

  handle_result-stays :
      (w : World Float) (body : SubmissionResult) (now : ℤ)
      → str_eq body.submission_id "" ≡ false
      → IsFinished body.submission_id w
      → IsFinished body.submission_id (handle_result fl srv w (some body) now).0
  handle_result-stays w body now n f =
      ap (any_row (is_unfinished body.submission_id)) (
        handle_result-saved_rows w body now w.db n
          (save_result_finished w.db (stamped body now) now f))
      ∙ f

  post-stays :
      (sent : Sent) (w : World Float) (body : SubmissionResult) (now : ℤ)
      → str_eq body.submission_id "" ≡ false
      → IsFinished body.submission_id w
      → IsFinished body.submission_id (post fl srv sent w body now).0
  post-stays unreachable w body now n f = f
  post-stays answered w body now n f = handle_result-stays w body now n f
  post-stays cut_off w body now n f = handle_result-stays w body now n f

  post-IsFinished :
      (sent : Sent) (w : World Float) (body : SubmissionResult) (now : ℤ)
      → str_eq body.submission_id "" ≡ false
      → or_done body.status ≡ done
      → is_known_verdict body.verdict ≡ true
      → are_texts body ≡ true
      → is_served sent ≡ true
      → IsFinished body.submission_id (post fl srv sent w body now).0
  post-IsFinished unreachable w body now n d v t s = absurd (ground arith)
  post-IsFinished answered w body now n d v t s = handle_result-IsFinished w body now n d v t
  post-IsFinished cut_off w body now n d v t s = handle_result-IsFinished w body now n d v t

  pub report_from-stays :
      (left attempt : ℕ) (link : ℕ → Try) (w : World Float) (body : SubmissionResult)
      → str_eq body.submission_id "" ≡ false
      → IsFinished body.submission_id w
      → IsFinished body.submission_id (report_from fl srv left attempt link w body).0
  unfolding report_from
  report_from-stays zero attempt link w body n f = f
  report_from-stays (suc left) attempt link w body n f =
      let served = post-stays ((link attempt).sent) w body ((link attempt).now) n f in
      ground (
        arith,
        served,
        report_from-stays left (suc attempt) link
            (post fl srv ((link attempt).sent) w body ((link attempt).now)).0 body n served,
      )

  unserved :
      (sent : Sent) (w : World Float) (body : SubmissionResult) (now : ℤ)
      → is_served sent ≡ false
      → is_success fl srv (post fl srv sent w body now).1 ≡ false
  unserved unreachable w body now e = refl
  unserved answered w body now e = absurd (ground arith)
  unserved cut_off w body now e = refl

  report_from-IsFinished :
      (left attempt : ℕ) (link : ℕ → Try) (w : World Float) (body : SubmissionResult)
      → str_eq body.submission_id "" ≡ false
      → or_done body.status ≡ done
      → is_known_verdict body.verdict ≡ true
      → are_texts body ≡ true
      → reaches left attempt link ≡ true
      → IsFinished body.submission_id (report_from fl srv left attempt link w body).0
  unfolding report_from
  report_from-IsFinished zero attempt link w body n d v t s = absurd (ground arith)
  report_from-IsFinished (suc left) attempt link w body n d v t s =
      elim (Bool-cases (is_served ((link attempt).sent))) [
        | inl e ↦
            let served =
              post-IsFinished ((link attempt).sent) w body ((link attempt).now) n d v t e in
            ground (arith, served, report_from-stays left (suc attempt) link next body n served)
        | inr e ↦ ground (
          arith,
          unserved ((link attempt).sent) w body ((link attempt).now) e,
          report_from-IsFinished left (suc attempt) link next body n d v t,
        )
      ]
    where
      next : World Float
      next = (post fl srv ((link attempt).sent) w body ((link attempt).now)).0

  pub report-IsFinished :
      (link : ℕ → Try) (w : World Float) (body : SubmissionResult)
      → str_eq body.submission_id "" ≡ false
      → or_done body.status ≡ done
      → is_known_verdict body.verdict ≡ true
      → are_texts body ≡ true
      → reaches 4 0 link ≡ true
      → IsFinished body.submission_id (report fl srv link w body).0
  unfolding report
  report-IsFinished link w body n d v t s = report_from-IsFinished 4 0 link w body n d v t s
