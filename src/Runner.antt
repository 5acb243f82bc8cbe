-- ===== src/Runner.antt =====
-- cmd/runner/main.go: what a runner does with a delivery, on its ticks and at its end. A link says
-- how each of its HTTP requests fares; the server's handlers are those of Api. The goroutines of
-- one runner are taken one call at a time.
pub mod Report
pub mod Once
pub mod Examples
pub mod Slots
pub mod Finishes
use arena.Common.{
  ℕ, zero, suc, ℤ, pos, negsuc, leb_ℤ, ltb, String, str_eq, Bool, true, false, Option, none, some,
  List, [], ◌∷◌, ◌++◌, ◌⊎◌, inl, inr, if◌then◌else◌,
}
use arena.Core.Limits.{Multiplier}
use arena.Core.Verdict.{ie, failed}
use arena.Core.Job.{JobSpec, SubmissionResult}
use arena.Judge.Test.{Judge, JudgeError, Cache}
use arena.Judge.Run.{run}
use arena.Queue.Streams.{Redis}
use arena.Queue.{Json, Queue, Delivery, Reclaim, ack, nack, heartbeat, reclaim}
use arena.Api.World.{World, Server}
use arena.Api.Result.{handle_mark_judging, handle_result}

-- A request that does not get through, one that is served, and one that is served but whose answer
-- is lost.
pub data Sent : Type 0 where
  unreachable : Sent
  answered : Sent
  cut_off : Sent

-- One request: when the server serves it, and whether the context ends before the next one.
pub record Try : Type 0 where
  pub sent : Sent
  pub now : ℤ
  pub is_done : Bool

-- The requests for one delivery: the one that says that it is being judged, and the reports; and
-- whether the context lasts until `Ack`.
pub record Link : Type 0 where
  pub mark : Sent
  pub report : ℕ → Try
  pub alive : Bool

-- The part of the configuration that is read here.
pub record Config : Type 0 where
  pub runner_id : String
  pub lease_ttl : ℤ
  pub max_attempts : ℤ

-- "the judge could not complete this submission; please resubmit"
abbrev pub give_up_text : List ℕ
give_up_text =
    116 ∷ 104 ∷ 101 ∷ 32 ∷ 106 ∷ 117 ∷ 100 ∷ 103 ∷ 101 ∷ 32 ∷ 99 ∷ 111 ∷ 117 ∷ 108 ∷ 100 ∷ 32 ∷ 110
    ∷ 111 ∷ 116 ∷ 32 ∷ 99 ∷ 111 ∷ 109 ∷ 112 ∷ 108 ∷ 101 ∷ 116 ∷ 101 ∷ 32 ∷ 116 ∷ 104 ∷ 105 ∷ 115
    ∷ 32 ∷ 115 ∷ 117 ∷ 98 ∷ 109 ∷ 105 ∷ 115 ∷ 115 ∷ 105 ∷ 111 ∷ 110 ∷ 59 ∷ 32 ∷ 112 ∷ 108 ∷ 101 ∷ 97
    ∷ 115 ∷ 101 ∷ 32 ∷ 114 ∷ 101 ∷ 115 ∷ 117 ∷ 98 ∷ 109 ∷ 105 ∷ 116 ∷ []

unfoldable pub failed_result : {F : Type 0} → Config → JobSpec F → SubmissionResult
failed_result cfg job = record {
  submission_id = job.submission_id;
  attempt = job.attempt;
  runner_id = cfg.runner_id;
  verdict = ie;
  status = failed;
  cpu_ms = pos 0;
  wall_ms = pos 0;
  mem_kb = pos 0;
  instructions = pos 0;
  score = pos 0;
  failed_test = negsuc 0;
  compile_log = give_up_text;
  tests = [];
  image_digest = "";
  cpu_model = "";
  judged_at = pos 0;
}

-- The server, Redis, and the test data that this runner has cached.
pub record Node (fl : Multiplier) (r : Redis) : Type 0 where
  pub api : World fl.Float
  pub redis : r.State
  pub cache : Cache

module _ (fl : Multiplier) (srv : Server fl) where
  open fl use {Float}

  -- One request of `report`: the answer's status, if the runner sees one.
  abbrev pub post : Sent → World Float → SubmissionResult → ℤ → World Float × Option ℕ
  post unreachable w res now = (w, none)
  post answered w res now =
      let (w', code) = handle_result fl srv w (some res) now in (w', some code)
  post cut_off w res now = ((handle_result fl srv w (some res) now).0, none)

  abbrev pub is_success : Option ℕ → Bool
  is_success none = false
  is_success (some code) = ltb code 300

  -- The loop of `report`, from an attempt on: whether a report was answered with success.
  unfoldable pub report_from :
      ℕ → ℕ → (ℕ → Try) → World Float → SubmissionResult → World Float × Bool
  unfolding handle_result
  report_from zero attempt link w res = (w, false)
  report_from (suc left) attempt link w res =
      let (w', code) = post ((link attempt).sent) w res ((link attempt).now) in
      let rest = report_from left (suc attempt) link w' res in
      if is_success code then (w', true) else if (link attempt).is_done then (w', false) else rest

  unfoldable pub report : (ℕ → Try) → World Float → SubmissionResult → World Float × Bool
  unfolding report_from
  report link w res = report_from 4 0 link w res

  abbrev pub mark : Sent → World Float → String → JobSpec Float → World Float
  mark unreachable w runner job = w
  mark answered w runner job = handle_mark_judging w job.submission_id runner job.attempt
  mark cut_off w runner job = handle_mark_judging w job.submission_id runner job.attempt

  module _ (json : Json Float) (r : Redis) (q : Queue) (cfg : Config) where
    open r use {State}

    -- `report`, and `Ack` whatever came of it: with a context that has ended it does nothing.
    unfoldable pub report_and_ack :
        Node fl r → String → SubmissionResult → (ℕ → Try) → Bool → Node fl r
    unfolding report ack
    report_and_ack n id res link alive = record n {
      api = (report link n.api res).0;
      redis = if alive then (ack json r q n.redis (id ∷ [])).0 else n.redis;
    }

    -- `handle` behind the judge.
    unfoldable pub settle_job :
        Node fl r
        → Delivery Float
        → (ℕ → Try)
        → Bool
        → JudgeError ⊎ (SubmissionResult × Cache)
        → Node fl r
    unfolding report_and_ack failed_result
    settle_job n d link alive (inl e) =
        if leb_ℤ cfg.max_attempts d.job.attempt
        then report_and_ack n d.message_id (failed_result cfg d.job) link alive
        else n
    settle_job n d link alive (inr (res, cache)) =
        report_and_ack (record n { cache = cache }) d.message_id res link alive

    unfoldable pub handle : Node fl r → Delivery Float → ℤ → Judge fl → Link → Node fl r
    unfolding settle_job run
    handle n d slot j link =
        settle_job (record n { api = mark link.mark n.api cfg.runner_id d.job }) d link.report
          link.alive (run fl j d.job slot n.cache)

    -- A tick of `heartbeatLoop`, and the drain at the end.
    unfoldable pub heartbeat_tick : Node fl r → List String → Node fl r
    unfolding heartbeat
    heartbeat_tick n in_flight = record n {
      redis = (heartbeat json r q n.redis cfg.runner_id in_flight).0;
    }

    unfoldable pub drain : Node fl r → List String → Node fl r
    unfolding nack
    drain n in_flight = record n { redis = (nack json r q n.redis in_flight).0 }

    -- The dead deliveries of `reclaimLoop`, each with a link of its own.
    unfoldable pub fail_dead :
        Node fl r → List (Delivery Float) → (String → ℕ → Try) → Bool → Node fl r
    unfolding report_and_ack
    fail_dead n [] links alive = n
    fail_dead n (d ∷ dead) links alive =
        fail_dead
          (report_and_ack n d.message_id (failed_result cfg d.job) (links d.message_id) alive) dead
          links alive

    abbrev pub reclaimed_node :
        Node fl r → (String → ℕ → Try) → Bool → State × Reclaim Float → Node fl r
    reclaimed_node n links alive (s, rec) = elim (rec.err) [
      | some e ↦ record n { redis = s }
      | none ↦ fail_dead (record n { redis = s }) rec.dead links alive
    ]

    -- A tick of `reclaimLoop`. The live deliveries are only counted.
    unfoldable pub reclaim_tick : Node fl r → (String → ℕ → Try) → Bool → Node fl r
    unfolding reclaim fail_dead
    reclaim_tick n links alive =
        reclaimed_node n links alive
          (reclaim json r q n.redis cfg.runner_id cfg.lease_ttl cfg.max_attempts)
