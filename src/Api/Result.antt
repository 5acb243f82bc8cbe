-- ===== src/Api/Result.antt =====
-- internal/api/handlers_internal.go: the only way by which a verdict enters the system.
pub mod Again
pub mod Duplicate
use arena.Common.{
  ℕ, ℤ, pos, String, str_eq, Bool, true, false, not, Option, none, some, List, [], ◌∷◌, ◌++◌,
  filter, if◌then◌else◌,
}
use arena.Core.Limits.{Multiplier}
use arena.Core.Verdict.{Verdict, ac, ie, Status, judging, done}
use arena.Core.Job.{SubmissionResult}
use arena.Core.Scoring.{UserProblemStat}
use arena.Langs.Manifest.{Manifest, job_limits}
use arena.Langs.Registry.{get}
use arena.Redis.Leaderboard.{Board, apply}
use arena.Store.{
  Row, Db, DbResult, ok, refused, find_row, has_id, mark_judging, save_result, put_cached_verdict,
}
use arena.Api.World.{
  Problem, Contest, Event, status_event, verdict_event, board_event, World, Server,
}

unfoldable pub is_ie : Verdict → Bool
is_ie ie = true
is_ie _ = false

unfoldable pub is_ac : Verdict → Bool
is_ac ac = true
is_ac _ = false

-- `if res.Status == ""`
unfoldable pub or_done : Status → Status
or_done (Status.unknown s) = if str_eq s "" then done else Status.unknown s
or_done s = s

module _ {F : Type 0} where
  unfoldable pub publish_event : World F → Event → World F
  publish_event w e = record w { events = w.events ++ e ∷ [] }

  -- `handleMarkJudging`, on a body that names a runner and an attempt.
  unfoldable pub handle_mark_judging : World F → String → String → ℤ → World F
  unfolding publish_event
  handle_mark_judging w id runner attempt =
      publish_event (record w { db = mark_judging w.db id runner attempt })
        (status_event id judging)

  -- `ReleaseInFlight`
  unfoldable pub release_in_flight : World F → String → World F
  release_in_flight w user = record w { in_flight = filter (λ u. not (str_eq u user)) w.in_flight }

  unfoldable pub set_board : World F → String → Board → World F
  set_board w contest b = record w { boards = λ c. if str_eq c contest then b else w.boards c }

-- The stat of an accepted run. The attempts are left at 0.
unfoldable pub accepted_stat : SubmissionResult → UserProblemStat
accepted_stat res = record {
  solved = true;
  attempts = pos 0;
  best_cpu_ms = res.cpu_ms;
  best_mem_kb = res.mem_kb;
  instructions = res.instructions;
  solved_at = res.judged_at;
}

module _ (fl : Multiplier) (srv : Server fl) where
  open fl use {Float}

  unfoldable pub verdict_cache_key :
      Row → SubmissionResult → Problem Float → Manifest Float → String
  verdict_cache_key sub res problem m =
      srv.cache_key sub.source_hash sub.language
        (if str_eq res.image_digest "" then m.image else res.image_digest) problem.testdata_version
        (job_limits fl m problem.limits)

  -- Part 1 of `afterVerdict`: the verdict cache.
  unfoldable pub cache_verdict : World Float → Row → SubmissionResult → Problem Float → World Float
  unfolding is_ie
  cache_verdict w sub res problem =
      if is_ie res.verdict then w else elim (get srv.langs sub.language) [
        | none ↦ w
        | some m ↦ record w {
          db = put_cached_verdict w.db (verdict_cache_key sub res problem m) res;
        }
      ]

  -- Part 2: the leaderboard.
  unfoldable pub move_board : World Float → Row → SubmissionResult → Problem Float → World Float
  unfolding is_ac set_board publish_event
  move_board w sub res problem =
      if is_ac res.verdict
      then elim (srv.contest problem.contest_id) [
        | none ↦ w
        | some c ↦
            publish_event
              (set_board w problem.contest_id (
                apply (w.boards problem.contest_id) sub.user_id problem.id (accepted_stat res)
                  c.scoring_mode c.starts_at))
              (board_event problem.contest_id)
      ]
      else w

  unfoldable pub after_verdict : World Float → Row → SubmissionResult → Problem Float → World Float
  unfolding cache_verdict move_board publish_event
  after_verdict w sub res problem =
      publish_event (move_board (cache_verdict w sub res problem) sub res problem)
        (verdict_event sub.id done res.verdict)

  -- `handleResult` behind the save: `none` is a 500.
  unfoldable pub settle : World Float → SubmissionResult → World Float × ℕ
  unfolding after_verdict release_in_flight find_row
  settle w res = elim (find_row (has_id res.submission_id) w.db.rows) [
    | none ↦ (w, 500)
    | some sub ↦ elim (srv.problem sub.problem_id) [
      | none ↦ (w, 500)
      | some problem ↦ (release_in_flight (after_verdict w sub res problem) sub.user_id, 204)
    ]
  ]

  abbrev pub settle_saved : World Float → SubmissionResult → DbResult Db → World Float × ℕ
  settle_saved w res refused = (w, 500)
  settle_saved w res (ok db) = settle (record w { db = db }) res

  -- `handleResult`: the new world and the HTTP status. A body that is no JSON is `none`.
  unfoldable pub handle_result : World Float → Option SubmissionResult → ℤ → World Float × ℕ
  unfolding settle or_done
  handle_result w none now = (w, 400)
  handle_result w (some body) now =
      if str_eq body.submission_id ""
      then (w, 400)
      else let res = record body { status = or_done body.status; judged_at = now } in
        settle_saved w res (save_result w.db res now)
