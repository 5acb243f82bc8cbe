-- ===== src/Judge/Run.antt =====
-- `Run` of internal/judge/judge.go: the loop over the tests, and the whole job.
pub mod Isolation
pub mod Skipped
pub mod Known
use arena.Common.{
  ℕ, ℤ, pos, negsuc, ◌+ℤ◌, ltb_ℤ, eqb_ℤ, String, str_eq, Bool, true, false, ◌&&◌, ◌||◌, not, Option,
  none, some, List, [], ◌∷◌, ◌++◌, if◌then◌else◌, ◌⊎◌, inl, inr,
}
use arena.Core.Limits.{Limits, Multiplier}
use arena.Core.Verdict.{Verdict, ac, wa, ce, done, is_accepted}
use arena.Core.Job.{JobSpec, TestRef, CheckerConfig, ExecOutcome, TestResult, SubmissionResult}
use arena.Core.Classify.{classify_run}
use arena.Core.Aggregate.{Summary, aggregate}
use arena.Core.Scoring.{test_points}
use arena.Langs.Manifest.{Manifest, needs_compile}
use arena.Langs.Registry.{Registry, get}
use arena.Judge.Sanitize.{sanitize}
use arena.Judge.Box.{
  Dir, nil, file, read_file, remove, write_file, copy_tree, reset_box, capped, read_capped,
}
use arena.Judge.Test.{
  RunSpec, Sandbox, Judge, JudgeError, CacheKey, same_bool, same_key, Cache, find_cached, fetch,
  ended_cleanly, is_wa, skipped_tests, prepend, Check, testdata, run_spec, check_output,
  test_result, judge_run, judged, settle_run, unknown_language, unknown_checker, no_source,
  compile_failed, preempted, no_testdata, run_failed, check_failed,
}

module _ (fl : Multiplier) (j : Judge fl) where
  open fl use {Float}

  -- `runOne`: the box is restored, the input put into it, and the program run.
  unfoldable pub run_one :
      JobSpec Float
      → Manifest Float
      → Check fl
      → TestRef
      → Dir
      → Dir
      → ℤ
      → Cache
      → JudgeError ⊎ (TestResult × Dir × Cache)
  unfolding testdata settle_run reset_box remove
  run_one job m chk tc box stash cpu cache = elim (testdata fl j.blobs job tc cache) [
    | none ↦ inl no_testdata
    | some (input, expected, cache') ↦
        settle_run fl job chk tc expected cache'
          (j.sandbox (run_spec fl job m cpu) (write_file "input" input (reset_box box stash)))
  ]

  -- The loop over the tests.
  unfoldable pub run_tests :
      JobSpec Float
      → Manifest Float
      → Check fl
      → List TestRef
      → Dir
      → Dir
      → ℤ
      → Cache
      → JudgeError ⊎ (List TestResult × Cache)
  unfolding run_one skipped_tests is_accepted
  run_tests job m chk [] box stash cpu cache = inr ([], cache)
  run_tests job m chk (tc ∷ tests) box stash cpu cache =
      if not (j.is_alive tc)
      then inl preempted
      else elim (run_one job m chk tc box stash cpu cache) [
        | inl e ↦ inl e
        | inr (tr, box', cache') ↦
            elim (job.policy.stop_on_first_failure && not (is_accepted tr.verdict)) [
              | true ↦ inr (tr ∷ skipped_tests tc job.tests, cache')
              | false ↦ prepend tr (run_tests job m chk tests box' stash cpu cache')
            ]
      ]

  abbrev pub new_result : JobSpec Float → SubmissionResult
  new_result job = record {
    submission_id = job.submission_id;
    attempt = job.attempt;
    runner_id = j.runner_id;
    verdict = Verdict.other "";
    status = done;
    cpu_ms = pos 0;
    wall_ms = pos 0;
    mem_kb = pos 0;
    instructions = pos 0;
    score = pos 0;
    failed_test = negsuc 0;
    compile_log = [];
    tests = [];
    image_digest = job.image_digest;
    cpu_model = j.cpu_model;
    judged_at = j.now;
  }

  unfoldable pub summed_up : JobSpec Float → List TestResult → SubmissionResult
  unfolding aggregate test_points
  summed_up job trs =
      let s = aggregate trs in
      record (new_result job) {
        verdict = s.verdict;
        cpu_ms = s.cpu_ms;
        wall_ms = s.wall_ms;
        mem_kb = s.mem_kb;
        failed_test = s.failed_test;
        score = test_points trs job.tests;
        tests = trs;
      }

  abbrev pub with_summary :
      JobSpec Float
      → JudgeError ⊎ (List TestResult × Cache)
      → JudgeError ⊎ (SubmissionResult × Cache)
  with_summary job (inl e) = inl e
  with_summary job (inr (trs, cache)) = inr (summed_up job trs, cache)

  -- `Run` behind the compiler.
  unfoldable pub run_built :
      JobSpec Float
      → Manifest Float
      → Check fl
      → Dir
      → ℤ
      → Cache
      → JudgeError ⊎ (SubmissionResult × Cache)
  unfolding run_tests summed_up copy_tree
  run_built job m chk box cpu cache =
      with_summary job (run_tests job m chk job.tests box (copy_tree box nil) cpu cache)

  abbrev pub compile_spec : JobSpec Float → Manifest Float → ℤ → RunSpec
  compile_spec job m cpu = record {
    image = m.image;
    cmd = m.compile;
    stdin_path = "";
    limits = job.limits.compile;
    env = m.env;
    cpu_set = cpu;
    network = false;
    disable_aslr = false;
  }

  -- "compilation timed out"
  abbrev pub timeout_text : List ℕ
  timeout_text =
      99 ∷ 111 ∷ 109 ∷ 112 ∷ 105 ∷ 108 ∷ 97 ∷ 116 ∷ 105 ∷ 111 ∷ 110 ∷ 32 ∷ 116 ∷ 105 ∷ 109 ∷ 101
      ∷ 100 ∷ 32 ∷ 111 ∷ 117 ∷ 116 ∷ []

  abbrev pub compile_text : ExecOutcome → List ℕ → List ℕ
  compile_text out [] = if out.wall_kill then timeout_text else []
  compile_text out (b ∷ log) = b ∷ log

  unfoldable pub compile_error : JobSpec Float → ExecOutcome → Dir → SubmissionResult
  unfolding sanitize read_capped
  compile_error job out box = record (new_result job) {
    verdict = ce;
    compile_log = compile_text out (sanitize 0 (read_capped "stderr" box 8000));
  }

  unfoldable pub compile_and_run :
      JobSpec Float
      → Manifest Float
      → Check fl
      → Dir
      → ℤ
      → Cache
      → JudgeError ⊎ (SubmissionResult × Cache)
  unfolding needs_compile compile_error run_built
  compile_and_run job m chk box cpu cache =
      if not (needs_compile fl m)
      then run_built job m chk box cpu cache
      else elim (j.sandbox (compile_spec job m cpu) box) [
        | none ↦ inl compile_failed
        | some (out, box') ↦
            if not (eqb_ℤ out.exit_code (pos 0)) || not (eqb_ℤ out.signal (pos 0))
            then inr (compile_error job out box', cache)
            else run_built job m chk box' cpu cache
      ]

  -- `Run`, in a slot of the runner.
  unfoldable pub run : JobSpec Float → ℤ → Cache → JudgeError ⊎ (SubmissionResult × Cache)
  unfolding get compile_and_run
  run job slot cache = elim (get j.langs job.language) [
    | none ↦ inl unknown_language
    | some m ↦ elim (j.checker job.checker.kind) [
      | none ↦ inl unknown_checker
      | some chk ↦ elim (j.blobs job.source_ref) [
        | none ↦ inl no_source
        | some source ↦
            compile_and_run job m chk (write_file m.source_file source nil) (slot +ℤ pos 1) cache
      ]
    ]
  ]
