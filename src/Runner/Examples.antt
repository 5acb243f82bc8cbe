-- ===== src/Runner/Examples.antt =====
-- Tests of the runner, and its theorems at concrete inputs.
use arena.Common.{
  ℕ, zero, suc, ◌+◌, ◌≤◌, ℤ, pos, ◌*ℤ◌, wrap64, arith, true, false, ◌≡◌, refl, some, [], ◌∷◌, inl,
  inr,
}
use arena.Core.Job.{SubmissionResult}
use arena.Core.Verdict.{is_accepted}
use arena.Core.Classify.{
  classify_run, output_flooded, memory_exhausted, time_exhausted, ended_abnormally,
}
use arena.Langs.Manifest.{needs_compile}
use arena.Langs.Registry.{get}
use arena.Judge.Box.{
  read_file, copy_tree, reset_box, remove, remove_names, names, is_artefact, sub_dir,
}
use arena.Store.{
  save_result, find_row, any_row, is_unfinished, is_known_status, is_known_verdict, are_texts,
}
use arena.Api.Result.{or_done, handle_result, settle}
use arena.Store.Examples.{one_row}
use arena.Langs.Examples.{whole}
use arena.Judge.Test.{
  Judge, Cache, testdata, fetch, find_cached, settle_run, judge_run, check_output, test_result,
}
use arena.Judge.Run.{run, run_built, run_tests, run_one}
use arena.Judge.Run.Known.{IsOfJob, run-IsOfJob}
use arena.Judge.Examples.{job, judge, always}
use arena.Queue.{Delivery, ack}
use arena.Queue.Examples.{job_json, two_messages, jobs}
use arena.Api.Examples.{server, world_of, world_of-IsScored, accepted}
use arena.Runner.Report.{reaches, IsFinished}
use arena.Runner.Once.{AtMostOnce, report-once}
use arena.Runner.Finishes.{handle-finishes}
use arena.Runner.Slots.{
  Agent, AgentRun, fresh, then_, deliver, slots_from, start_jobs, count_slot, count_busy,
  AgentRun-once,
}
use arena.Runner.{Sent, unreachable, answered, cut_off, Try, Link, Config, Node, report, handle}

-- The first request does not get through, the answer of the second is lost, the third is answered.
abbrev shaky_sent : ℕ → Sent
shaky_sent zero = unreachable
shaky_sent (suc zero) = cut_off
shaky_sent (suc (suc n)) = answered

abbrev shaky : ℕ → Try
shaky n = record { sent = shaky_sent n; now = pos (10 + n); is_done = false }

reaches-shaky : reaches 4 0 shaky ≡ true
reaches-shaky = refl

report-once_example :
    AtMostOnce whole server
      (world_of one_row)
      accepted
      (report whole server shaky (world_of one_row) accepted).0
unfolding or_done handle_result settle save_result find_row any_row is_unfinished is_known_status
    is_known_verdict are_texts
report-once_example =
    report-once whole server shaky (world_of one_row) accepted refl world_of-IsScored (λ now. refl)

abbrev config : Config
config = record { runner_id = "r1"; lease_ttl = pos 90; max_attempts = pos 3 }

abbrev ready : Judge whole
ready = record judge { checker = λ kind. some always }

abbrev node : Node whole two_messages
node = record { api = world_of one_row; redis = (true, false); cache = [] }

abbrev delivery : Delivery ℤ
delivery = record { message_id = "1-0"; job = job }

abbrev link : Link
link = record { mark = unreachable; report = shaky; alive = true }

abbrev result_of : SubmissionResult × Cache
result_of = elim (run whole ready job (pos 0) []) [ inl e ↦ (accepted, []) | inr r ↦ r ]

ready_judges : run whole ready job (pos 0) [] ≡ inr (result_of.0, result_of.1)
unfolding run run_built run_tests run_one testdata fetch find_cached settle_run judge_run
    check_output test_result classify_run output_flooded memory_exhausted time_exhausted
    ended_abnormally read_file needs_compile get copy_tree reset_box remove remove_names names
    is_artefact sub_dir is_accepted wrap64 ◌*ℤ◌
ready_judges = refl

result_texts : are_texts result_of.0 ≡ true
unfolding are_texts run run_built run_tests run_one testdata fetch find_cached settle_run judge_run
    check_output test_result classify_run output_flooded memory_exhausted time_exhausted
    ended_abnormally read_file needs_compile get copy_tree reset_box remove remove_names names
    is_artefact sub_dir is_accepted wrap64 ◌*ℤ◌
result_texts = refl

run-IsOfJob_example : IsOfJob whole ready job result_of.0
run-IsOfJob_example = run-IsOfJob whole ready job (pos 0) [] result_of.0 result_of.1 ready_judges

handle-finishes_example :
    IsFinished "s1"
      (handle whole server job_json two_messages jobs config node delivery (pos 0) ready link).api
    × ((handle whole server job_json two_messages jobs config node delivery
          (pos 0)
          ready
          link).redis
        ≡ (ack job_json two_messages jobs (true, false) ("1-0" ∷ [])).0)
handle-finishes_example =
    handle-finishes whole server job_json two_messages jobs config node delivery (pos 0) ready link
      result_of.0 result_of.1 ready_judges refl result_texts reaches-shaky

abbrev two_slots : Agent
two_slots = record {
  free = [];
  busy = ("1-0", pos 0) ∷ ("2-0", pos 1) ∷ [];
  in_flight = "1-0" ∷ "2-0" ∷ [];
}

two_start : AgentRun 2 two_slots
unfolding start_jobs
two_start = then_ fresh (deliver ("1-0" ∷ "2-0" ∷ []) (omega arith) refl)

AgentRun-once_example :
    (count_slot (pos 1) two_slots.free + count_busy (pos 1) two_slots.busy
      ≡ count_slot (pos 1) (slots_from 0 2))
    × (count_slot (pos 1) two_slots.free + count_busy (pos 1) two_slots.busy ≤ 1)
AgentRun-once_example = AgentRun-once (pos 1) two_start
