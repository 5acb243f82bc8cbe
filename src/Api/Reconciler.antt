-- ===== src/Api/Reconciler.antt =====
-- internal/api/reconciler.go: one tick of the loop that looks for lost submissions. A tick is
-- taken at one time `now`.
pub mod GivesUp
pub mod Ticks
use arena.Common.{
  ℕ, ℤ, pos, negsuc, ◌+ℤ◌, ◌-ℤ◌, leb_ℤ, String, none, some, List, [], ◌∷◌, ◌++◌, if◌then◌else◌,
}
use arena.Core.Limits.{Multiplier}
use arena.Core.Verdict.{ie, failed}
use arena.Core.Job.{JobSpec, default_policy, SubmissionResult}
use arena.Langs.Manifest.{Manifest, job_limits}
use arena.Langs.Registry.{get}
use arena.Store.{Row, Db, DbResult, ok, refused, bump_attempt, save_result, stuck_submissions}
use arena.Api.World.{Problem, World, Server, verdict_event}
use arena.Api.Result.{publish_event}

-- "judge could not complete this submission after repeated attempts; please resubmit"
abbrev pub give_up_text : List ℕ
give_up_text =
    106 ∷ 117 ∷ 100 ∷ 103 ∷ 101 ∷ 32 ∷ 99 ∷ 111 ∷ 117 ∷ 108 ∷ 100 ∷ 32 ∷ 110 ∷ 111 ∷ 116 ∷ 32 ∷ 99
    ∷ 111 ∷ 109 ∷ 112 ∷ 108 ∷ 101 ∷ 116 ∷ 101 ∷ 32 ∷ 116 ∷ 104 ∷ 105 ∷ 115 ∷ 32 ∷ 115 ∷ 117 ∷ 98
    ∷ 109 ∷ 105 ∷ 115 ∷ 115 ∷ 105 ∷ 111 ∷ 110 ∷ 32 ∷ 97 ∷ 102 ∷ 116 ∷ 101 ∷ 114 ∷ 32 ∷ 114 ∷ 101
    ∷ 112 ∷ 101 ∷ 97 ∷ 116 ∷ 101 ∷ 100 ∷ 32 ∷ 97 ∷ 116 ∷ 116 ∷ 101 ∷ 109 ∷ 112 ∷ 116 ∷ 115 ∷ 59 ∷ 32
    ∷ 112 ∷ 108 ∷ 101 ∷ 97 ∷ 115 ∷ 101 ∷ 32 ∷ 114 ∷ 101 ∷ 115 ∷ 117 ∷ 98 ∷ 109 ∷ 105 ∷ 116 ∷ []

unfoldable pub give_up_result : String → SubmissionResult
give_up_result id = record {
  submission_id = id;
  attempt = pos 0;
  runner_id = "";
  verdict = ie;
  status = failed;
  cpu_ms = pos 0;
  wall_ms = pos 0;
  mem_kb = pos 0;
  instructions = pos 0;
  score = pos 0;
  failed_test = negsuc 0;
  compile_log = give_up_text;
  tests = [];
  image_digest = "";
  cpu_model = "";
  judged_at = pos 0;
}

-- The tables after a statement whose error the code drops.
abbrev pub or_same : Db → DbResult Db → Db
or_same db refused = db
or_same db (ok db') = db'

module _ {F : Type 0} where
  unfoldable pub give_up : World F → String → ℤ → World F
  unfolding save_result give_up_result publish_event
  give_up w id now =
      publish_event (record w { db = or_same w.db (save_result w.db (give_up_result id) now) })
        (verdict_event id failed ie)

  -- `Publish`, on a Redis that answers.
  unfoldable pub publish_job : World F → JobSpec F → World F
  publish_job w job = record w { queue = w.queue ++ job ∷ [] }

module _ (fl : Multiplier) (srv : Server fl) where
  open fl use {Float}

  unfoldable pub retry_job : Row → ℤ → Problem Float → Manifest Float → ℤ → JobSpec Float
  unfolding job_limits
  retry_job sub attempt problem m now = record {
    submission_id = sub.id;
    attempt = attempt +ℤ pos 1;
    contest_id = sub.contest_id;
    problem_id = sub.problem_id;
    user_id = sub.user_id;
    language = sub.language;
    source_ref = sub.source_ref;
    source_hash = sub.source_hash;
    image_digest = m.image;
    testdata_version = problem.testdata_version;
    tests = srv.tests problem.id;
    limits = job_limits fl m problem.limits;
    checker = problem.checker;
    policy = default_policy;
    enqueued_at = now;
  }

  unfoldable pub republish : World Float → Row → ℤ → ℤ → World Float
  unfolding publish_job retry_job get
  republish w sub attempt now = elim (srv.problem sub.problem_id) [
    | none ↦ w
    | some problem ↦ elim (get srv.langs sub.language) [
      | none ↦ w
      | some m ↦ publish_job w (retry_job sub attempt problem m now)
    ]
  ]

  -- The body of the loop, behind `BumpAttempt`.
  unfoldable pub reconcile_bumped : World Float → Row → ℤ → ℤ → World Float
  unfolding give_up republish
  reconcile_bumped w sub attempt now =
      if leb_ℤ srv.max_attempts attempt then give_up w sub.id now else republish w sub attempt now

  unfoldable pub reconcile_row : World Float → Row → ℤ → World Float
  unfolding bump_attempt reconcile_bumped
  reconcile_row w sub now = elim (bump_attempt w.db sub.id) [
    | refused ↦ w
    | ok (db, attempt) ↦ reconcile_bumped (record w { db = db }) sub attempt now
  ]

  unfoldable pub reconcile_rows : World Float → List Row → ℤ → World Float
  reconcile_rows w [] now = w
  reconcile_rows w (sub ∷ subs) now = reconcile_rows (reconcile_row w sub now) subs now

  unfoldable pub reconcile_once : World Float → ℤ → ℤ → World Float
  unfolding stuck_submissions reconcile_rows reconcile_row
  reconcile_once w stuck_after now =
      reconcile_rows w (stuck_submissions w.db (now -ℤ stuck_after) 100) now
