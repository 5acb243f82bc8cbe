-- ===== src/Api/Submit.antt =====
-- internal/api/handlers_submissions.go: the handler that takes a submission.
pub mod Created
pub mod Outcome
pub mod Retry
use Prim.Native.String.{◌++◌ as str_append}
use arena.Common.{
  ℕ, ◌==◌, ◌<◌, ℤ, pos, ltb, length, String, str_eq, Bool, true, false, ◌&&◌, ◌||◌, not, Option,
  none, some, List, [], ◌∷◌, ◌++◌, if◌then◌else◌,
}
use arena.Core.Limits.{Multiplier}
use arena.Core.Job.{TestRef, JobSpec, default_policy, SubmissionResult}
use arena.Checker.Scanner.{skip_spaces}
use arena.Langs.Manifest.{Manifest, job_limits}
use arena.Langs.Registry.{get}
use arena.Store.{
  Row, Db, DbResult, ok, refused, find_row, has_id, NewSubmission, create_submission,
  find_by_idempotency_key, cached_verdict, save_result,
}
use arena.Api.World.{Problem, World, Server}
use arena.Api.Result.{after_verdict}
use arena.Api.Reconciler.{publish_job}

-- A request with its participant, its problem and its Idempotency-Key.
pub record SubmitRequest : Type 0 where
  pub user_id : String
  pub problem : String
  pub language : String
  pub source : List ℕ
  pub idempotency_key : String

-- What the handler meets outside: whether the rate limiter lets the request pass, whether the blob
-- store takes the source, the id that the database generates, whether the queue answers, the time.
pub record Outside : Type 0 where
  pub allowed : Bool
  pub can_store : Bool
  pub new_id : String
  pub queue_up : Bool
  pub now : ℤ

-- What the client gets: a submission, by its row or its id, or an error by its HTTP status.
pub data Answer : Type 0 where
  existing : Row → Answer
  replayed : Option Row → Answer
  accepted : String → Answer
  rejected : ℕ → Answer

abbrev pub max_source_bytes : ℕ
max_source_bytes = 262_144

-- `strings.ReplaceAll(in.Source, "\r\n", "\n")`
unfoldable pub unix_lines : List ℕ → List ℕ
unix_lines [] = []
unix_lines (c ∷ []) = c ∷ []
unix_lines (c ∷ d ∷ s) =
    let rest = unix_lines (d ∷ s) in if c == 13 && d == 10 then rest else c ∷ rest

-- `strings.TrimSpace(in.Source) == ""`
abbrev pub is_nil : List ℕ → Bool
is_nil [] = true
is_nil (c ∷ s) = false

unfoldable pub is_blank : List ℕ → Bool
unfolding skip_spaces
is_blank source = is_nil (skip_spaces 0 source)

unfoldable pub has_blob : String → List (String × List ℕ) → Bool
has_blob ref [] = false
has_blob ref ((r, b) ∷ blobs) = str_eq r ref || has_blob ref blobs

module _ {F : Type 0} where
  -- `Exists` and `Put`: `none` if the source is not there and cannot be stored.
  unfoldable pub store_source : World F → String → List ℕ → Bool → Option (World F)
  unfolding has_blob
  store_source w ref source can_store =
      if has_blob ref w.blobs
      then some w
      else if can_store
      then some (record w { blobs = (ref, source) ∷ w.blobs })
      else none

  abbrev pub answer_existing : World F → Answer → Option Row → World F × Answer
  answer_existing w otherwise none = (w, otherwise)
  answer_existing w otherwise (some sub) = (w, existing sub)

abbrev pub source_ref : String → String
source_ref hash = str_append "src/" hash

module _ (fl : Multiplier) (srv : Server fl) where
  open fl use {Float}

  abbrev pub hash_of : SubmitRequest → String
  hash_of req = srv.source_hash (unix_lines req.source)

  unfoldable pub new_submission : SubmitRequest → Manifest Float → Problem Float → NewSubmission
  unfolding unix_lines
  new_submission req m problem = record {
    user_id = req.user_id;
    problem_id = problem.id;
    contest_id = problem.contest_id;
    language = m.id;
    source_ref = source_ref (hash_of req);
    source_hash = hash_of req;
    testdata_version = problem.testdata_version;
    idempotency_key = req.idempotency_key;
  }

  unfoldable pub first_job :
      SubmitRequest → Manifest Float → Problem Float → Outside → JobSpec Float
  unfolding job_limits unix_lines
  first_job req m problem out = record {
    submission_id = out.new_id;
    attempt = pos 1;
    contest_id = problem.contest_id;
    problem_id = problem.id;
    user_id = req.user_id;
    language = m.id;
    source_ref = source_ref (hash_of req);
    source_hash = hash_of req;
    image_digest = m.image;
    testdata_version = problem.testdata_version;
    tests = srv.tests problem.id;
    limits = job_limits fl m problem.limits;
    checker = problem.checker;
    policy = default_policy;
    enqueued_at = out.now;
  }

  unfoldable pub enqueue :
      World Float → SubmitRequest → Manifest Float → Problem Float → Outside → World Float × Answer
  unfolding publish_job first_job
  enqueue w req m problem out =
      (if out.queue_up then publish_job w (first_job req m problem out) else w, accepted out.new_id)

  abbrev pub cached_result : SubmissionResult → Outside → SubmissionResult
  cached_result c out = record c {
    submission_id = out.new_id;
    judged_at = out.now;
    runner_id = "cache";
  }

  -- A hit in the verdict cache; a result that cannot be saved is judged after all.
  unfoldable pub replay_saved :
      World Float
      → SubmitRequest
      → Manifest Float
      → Problem Float
      → Outside
      → Row
      → SubmissionResult
      → DbResult Db
      → World Float × Answer
  unfolding after_verdict enqueue find_row
  replay_saved w req m problem out sub c refused = enqueue w req m problem out
  replay_saved w req m problem out sub c (ok db) =
      let w' = after_verdict fl srv (record w { db = db }) sub c problem in
      (w', replayed (find_row (has_id sub.id) w'.db.rows))

  unfoldable pub replay :
      World Float
      → SubmitRequest
      → Manifest Float
      → Problem Float
      → Outside
      → Row
      → SubmissionResult
      → World Float × Answer
  unfolding save_result replay_saved
  replay w req m problem out sub c =
      replay_saved w req m problem out sub (cached_result c out)
        (save_result w.db (cached_result c out) out.now)

  unfoldable pub judge :
      World Float
      → SubmitRequest
      → Manifest Float
      → Problem Float
      → Outside
      → Row
      → World Float × Answer
  unfolding cached_verdict replay enqueue
  judge w req m problem out sub =
      elim (cached_verdict w.db (
        srv.cache_key (hash_of req) m.id m.image problem.testdata_version
          (job_limits fl m problem.limits))) [
            | none ↦ enqueue w req m problem out
            | some c ↦ replay w req m problem out sub c
          ]

  unfoldable pub create :
      World Float → SubmitRequest → Manifest Float → Problem Float → Outside → World Float × Answer
  unfolding create_submission find_by_idempotency_key judge new_submission
  create w req m problem out =
      elim (create_submission w.db (new_submission req m problem) out.new_id out.now) [
        | refused ↦
            answer_existing w (rejected 500)
              (find_by_idempotency_key w.db req.user_id req.idempotency_key)
        | ok (db, sub) ↦ judge (record w { db = db }) req m problem out sub
      ]

  unfoldable pub submit_to :
      World Float → SubmitRequest → Manifest Float → Problem Float → Outside → World Float × Answer
  unfolding store_source create
  submit_to w req m problem out = elim (srv.tests problem.id) [
    | [] ↦ (w, rejected 503)
    | test ∷ tests ↦
        elim (store_source w (source_ref (hash_of req)) (unix_lines req.source) out.can_store) [
          | none ↦ (w, rejected 500)
          | some w' ↦ create w' req m problem out
        ]
  ]

  -- Behind the rate limiter.
  unfoldable pub submit_once :
      World Float → SubmitRequest → Manifest Float → Outside → World Float × Answer
  unfolding find_by_idempotency_key submit_to
  submit_once w req m out = elim (find_by_idempotency_key w.db req.user_id req.idempotency_key) [
    | some sub ↦ (w, existing sub)
    | none ↦ elim (srv.problem req.problem) [
      | none ↦ (w, rejected 404)
      | some problem ↦ submit_to w req m problem out
    ]
  ]

  -- `handleSubmit`, for the participant of the session. A body that is no JSON is `none`.
  unfoldable pub handle_submit : World Float → Option SubmitRequest → Outside → World Float × Answer
  unfolding is_blank submit_once get
  handle_submit w none out = (w, rejected 400)
  handle_submit w (some req) out =
      if is_blank req.source
      then (w, rejected 400)
      else if ltb max_source_bytes (length req.source)
      then (w, rejected 413)
      else elim (get srv.langs req.language) [
        | none ↦ (w, rejected 400)
        | some m ↦ if not out.allowed then (w, rejected 429) else submit_once w req m out
      ]
