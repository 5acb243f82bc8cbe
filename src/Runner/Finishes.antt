-- ===== src/Runner/Finishes.antt =====
-- A delivery that a runner handles, from the judge to the row and the queue.
use arena.Common.{
  ℤ, str_eq, true, false, ◌≡◌, refl, ap, subst, ◌∙◌, [], ◌∷◌, arith, inr, if◌then◌else◌,
}
use arena.Core.Limits.{Multiplier}
use arena.Core.Verdict.{Status, done}
use arena.Core.Job.{SubmissionResult}
use arena.Judge.Test.{Judge, Cache}
use arena.Judge.Run.{run}
use arena.Judge.Run.Known.{run-IsOfJob}
use arena.Queue.Streams.{Redis}
use arena.Queue.{Json, Queue, Delivery, ack}
use arena.Store.{are_texts}
use arena.Api.World.{Server}
use arena.Api.Result.{or_done}
use arena.Runner.Report.{reaches, IsFinished, report-IsFinished}
use arena.Runner.{report, Link, Config, Node, mark, report_and_ack, settle_job, handle}

or_done_done : (s : Status) → s ≡ done → or_done s ≡ done
unfolding or_done
or_done_done s h = ground arith

module _ (fl : Multiplier) (srv : Server fl) (json : Json fl.Float) (r : Redis) (q : Queue)
    (cfg : Config) where
  open fl use {Float}

  -- When the judge returns a result whose texts Postgres takes, as they are cut for it, and one of
  -- the four reports is served before the context ends, no row of the submission is left
  -- unfinished, however many answers are lost; and the message is acknowledged if the context lasts
  -- until then, and left as it is if not.
  pub handle-finishes :
      (n : Node fl r) (d : Delivery Float) (slot : ℤ) (j : Judge fl) (link : Link)
      (res : SubmissionResult) (cache : Cache)
      → run fl j d.job slot n.cache ≡ inr (res, cache)
      → str_eq d.job.submission_id "" ≡ false
      → are_texts res ≡ true
      → reaches 4 0 link.report ≡ true
      → IsFinished d.job.submission_id (handle fl srv json r q cfg n d slot j link).api
        × ((handle fl srv json r q cfg n d slot j link).redis
            ≡ (if link.alive then (ack json r q n.redis (d.message_id ∷ [])).0 else n.redis))
  unfolding handle settle_job report_and_ack
  handle-finishes n d slot j link res cache e i t s =
      let of_job = run-IsOfJob fl j d.job slot n.cache res cache e in
      let marked = mark fl srv link.mark n.api cfg.runner_id d.job in
      rw e (
        subst (λ id. IsFinished id (report fl srv link.report marked res).0) of_job.id
            (report-IsFinished fl srv link.report marked res (ap (λ id. str_eq id "") of_job.id ∙ i)
              (or_done_done res.status of_job.finished) of_job.known t s),
        refl,
      )
