-- ===== src/Judge/Run/Known.antt =====
-- The results of `Run`: of the job, and with a verdict that the tables accept.
use arena.Common.{
  ℕ, ℤ, pos, eqb_ℤ, Bool, true, ◌&&◌, ◌||◌, not, ◌≡◌, refl, ap, Option, none, some, List, [], ◌∷◌,
  inl, inr, All, arith, Sum-cases, Option-cases, Bool-cases, subst, sym, ◌∙◌, ◌+ℤ◌,
}
use arena.Core.Limits.{Limits, Multiplier}
use arena.Core.Verdict.{Verdict, done, is_accepted}
use arena.Core.Job.{JobSpec, TestRef, ExecOutcome, TestResult, SubmissionResult}
use arena.Core.Classify.{classify_run}
use arena.Core.Aggregate.{Summary, count_test, aggregate_from, no_tests, aggregate}
use arena.Langs.Manifest.{Manifest, needs_compile}
use arena.Langs.Registry.{get}
use arena.Store.{is_known_verdict}
use arena.Judge.Box.{Dir, nil, copy_tree, read_file, write_file, reset_box}
use arena.Judge.Test.{
  Judge, Cache, Check, skipped_tests, testdata, run_spec, check_output, test_result, judge_run,
  settle_run,
}
use arena.Judge.Run.{
  run_one, run_tests, summed_up, run_built, compile_error, compile_and_run, compile_spec, run,
}

abbrev pub IsKnown : Verdict → Type 0
IsKnown v = is_known_verdict v ≡ true

classify_run-IsKnown :
    (out : ExecOutcome) (lim : Limits) (correct : Bool) → IsKnown (classify_run out lim correct)
unfolding classify_run is_known_verdict
classify_run-IsKnown out lim correct = ground arith

abbrev KnownTests : List TestResult → Type 0
KnownTests = All (λ t. IsKnown t.verdict)

skipped_tests-IsKnown : (tc : TestRef) (tests : List TestRef) → KnownTests (skipped_tests tc tests)
unfolding skipped_tests is_known_verdict
skipped_tests-IsKnown tc [] = tt
skipped_tests-IsKnown tc (rest ∷ tests) = ground (arith, skipped_tests-IsKnown tc tests)

count_test-IsKnown :
    (s : Summary) (t : TestResult)
    → IsKnown s.verdict
    → IsKnown t.verdict
    → IsKnown (count_test s t).verdict
unfolding count_test
count_test-IsKnown s t h k = ground arith

aggregate_from-IsKnown :
    (s : Summary) (ts : List TestResult)
    → IsKnown s.verdict
    → KnownTests ts
    → IsKnown (aggregate_from s ts).verdict
unfolding aggregate_from
aggregate_from-IsKnown s [] h k = h
aggregate_from-IsKnown s (t ∷ ts) h (k, ks) =
    aggregate_from-IsKnown (count_test s t) ts (count_test-IsKnown s t h k) ks

aggregate-IsKnown : (ts : List TestResult) → KnownTests ts → IsKnown (aggregate ts).verdict
unfolding aggregate is_known_verdict
aggregate-IsKnown ts k = aggregate_from-IsKnown no_tests ts refl k

module _ (fl : Multiplier) (j : Judge fl) where
  open fl use {Float}

  judge_run-IsKnown :
      (job : JobSpec Float) (chk : Check fl) (tc : TestRef) (expected : List ℕ) (out : ExecOutcome)
      (stdout : Option (List ℕ)) (tr : TestResult)
      → judge_run fl job chk tc expected out stdout ≡ some tr
      → IsKnown tr.verdict
  unfolding judge_run test_result
  judge_run-IsKnown job chk tc expected out stdout tr e =
      elim (Option-cases (check_output fl job chk expected out stdout)) [
        | inl f ↦ absurd (ground arith)
        | inr ((correct, msg), f) ↦
            let same : tr.verdict ≡ classify_run out job.limits.run correct = ground arith in
            ap is_known_verdict same ∙ classify_run-IsKnown out job.limits.run correct
      ]

  settle_run-IsKnown :
      (job : JobSpec Float) (chk : Check fl) (tc : TestRef) (expected : List ℕ) (cache : Cache)
      (o : Option (ExecOutcome × Dir)) (tr : TestResult) (box : Dir) (cache' : Cache)
      → settle_run fl job chk tc expected cache o ≡ inr (tr, box, cache')
      → IsKnown tr.verdict
  unfolding settle_run
  settle_run-IsKnown job chk tc expected cache none tr box cache' e = absurd (ground arith)
  settle_run-IsKnown job chk tc expected cache (some (out, b)) tr box cache' e =
      elim (Option-cases (judge_run fl job chk tc expected out (read_file "stdout" b))) [
        | inl f ↦ absurd (ground arith)
        | inr (x, f) ↦
            let same : tr.verdict ≡ x.verdict = ground arith in
            ap is_known_verdict same
            ∙ judge_run-IsKnown job chk tc expected out (read_file "stdout" b) x f
      ]

  run_one-IsKnown :
      (job : JobSpec Float) (m : Manifest Float) (chk : Check fl) (tc : TestRef) (box stash : Dir)
      (cpu : ℤ) (cache : Cache) (tr : TestResult) (box' : Dir) (cache' : Cache)
      → run_one fl j job m chk tc box stash cpu cache ≡ inr (tr, box', cache')
      → IsKnown tr.verdict
  unfolding run_one
  run_one-IsKnown job m chk tc box stash cpu cache tr box' cache' e =
      elim (Option-cases (testdata fl j.blobs job tc cache)) [
        | inl f ↦ absurd (ground arith)
        | inr ((input, expected, c), f) ↦
            settle_run-IsKnown job chk tc expected c
              (j.sandbox (run_spec fl job m cpu) (write_file "input" input (reset_box box stash)))
              tr box' cache' (ground arith)
      ]

  run_tests-IsKnown :
      (job : JobSpec Float) (m : Manifest Float) (chk : Check fl) (tests : List TestRef)
      (box stash : Dir) (cpu : ℤ) (cache : Cache) (trs : List TestResult) (cache' : Cache)
      → run_tests fl j job m chk tests box stash cpu cache ≡ inr (trs, cache')
      → KnownTests trs
  unfolding run_tests
  run_tests-IsKnown job m chk [] box stash cpu cache trs cache' e =
      let same : [] ≡ trs = ground arith in subst KnownTests same tt
  run_tests-IsKnown job m chk (tc ∷ tests) box stash cpu cache trs cache' e =
      elim (Sum-cases (run_one fl j job m chk tc box stash cpu cache)) [
        | inl (x, f) ↦ absurd (ground arith)
        | inr ((tr, b, c), f) ↦
            let known = run_one-IsKnown job m chk tc box stash cpu cache tr b c f in
            elim (Bool-cases (job.policy.stop_on_first_failure && not (is_accepted tr.verdict))) [
              | inl s ↦
                  let same : tr ∷ skipped_tests tc job.tests ≡ trs = ground arith in
                  subst KnownTests same (known, skipped_tests-IsKnown tc job.tests)
              | inr s ↦ elim (Sum-cases (run_tests fl j job m chk tests b stash cpu c)) [
                | inl (x, g) ↦ absurd (ground arith)
                | inr ((rest, c'), g) ↦
                    let same : tr ∷ rest ≡ trs = ground arith in
                    subst KnownTests same
                      (known, run_tests-IsKnown job m chk tests b stash cpu c rest c' g)
              ]
            ]
      ]

  -- A finished result of the job, which the tables accept.
  pub record IsOfJob (job : JobSpec Float) (res : SubmissionResult) : Type 0 where
    pub id : res.submission_id ≡ job.submission_id
    pub attempt : res.attempt ≡ job.attempt
    pub finished : res.status ≡ done
    pub known : IsKnown res.verdict

  run_built-IsOfJob :
      (job : JobSpec Float) (m : Manifest Float) (chk : Check fl) (box : Dir) (cpu : ℤ)
      (cache : Cache) (res : SubmissionResult) (cache' : Cache)
      → run_built fl j job m chk box cpu cache ≡ inr (res, cache')
      → IsOfJob job res
  unfolding run_built summed_up
  run_built-IsOfJob job m chk box cpu cache res cache' e =
      elim (Sum-cases (run_tests fl j job m chk job.tests box (copy_tree box nil) cpu cache)) [
        | inl (x, f) ↦ absurd (ground arith)
        | inr ((trs, c), f) ↦
            let same : res ≡ summed_up fl j job trs = ground arith in
            subst (IsOfJob job) (sym same) (record {
              id = refl;
              attempt = refl;
              finished = refl;
              known =
                  aggregate-IsKnown trs (
                    run_tests-IsKnown job m chk job.tests box (copy_tree box nil) cpu cache trs c
                      f);
            })
      ]

  compile_error-IsOfJob :
      (job : JobSpec Float) (out : ExecOutcome) (box : Dir)
      → IsOfJob job (compile_error fl j job out box)
  unfolding compile_error is_known_verdict
  compile_error-IsOfJob job out box = record {
    id = refl;
    attempt = refl;
    finished = refl;
    known = refl;
  }

  compile_and_run-IsOfJob :
      (job : JobSpec Float) (m : Manifest Float) (chk : Check fl) (box : Dir) (cpu : ℤ)
      (cache : Cache) (res : SubmissionResult) (cache' : Cache)
      → compile_and_run fl j job m chk box cpu cache ≡ inr (res, cache')
      → IsOfJob job res
  unfolding compile_and_run
  compile_and_run-IsOfJob job m chk box cpu cache res cache' e =
      elim (Bool-cases (needs_compile fl m)) [
        | inr n ↦ run_built-IsOfJob job m chk box cpu cache res cache' (ground arith)
        | inl n ↦ elim (Option-cases (j.sandbox (compile_spec fl j job m cpu) box)) [
          | inl f ↦ absurd (ground arith)
          | inr ((out, b), f) ↦
              elim (Bool-cases
                (not (eqb_ℤ out.exit_code (pos 0)) || not (eqb_ℤ out.signal (pos 0)))) [
                  | inr ok ↦ run_built-IsOfJob job m chk b cpu cache res cache' (ground arith)
                  | inl bad ↦
                      let same : res ≡ compile_error fl j job out b = ground arith in
                      subst (IsOfJob job) (sym same) (compile_error-IsOfJob job out b)
                ]
        ]
      ]

  -- What `Run` returns, for whatever the sandbox and the program do, is a result of this job and
  -- this attempt, with status DONE and one of the eight verdicts.
  pub run-IsOfJob :
      (job : JobSpec Float) (slot : ℤ) (cache : Cache) (res : SubmissionResult) (cache' : Cache)
      → run fl j job slot cache ≡ inr (res, cache')
      → IsOfJob job res
  unfolding run
  run-IsOfJob job slot cache res cache' e = elim (Option-cases (get j.langs job.language)) [
    | inl f ↦ absurd (ground arith)
    | inr (m, f) ↦ elim (Option-cases (j.checker job.checker.kind)) [
      | inl g ↦ absurd (ground arith)
      | inr (chk, g) ↦ elim (Option-cases (j.blobs job.source_ref)) [
        | inl k ↦ absurd (ground arith)
        | inr (source, k) ↦
            compile_and_run-IsOfJob job m chk (write_file m.source_file source nil) (slot +ℤ pos 1)
              cache res cache' (ground arith)
      ]
    ]
  ]
