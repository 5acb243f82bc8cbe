-- ===== src/Judge/Run/Isolation.antt =====
-- No test of a submission sees what another one, or an earlier submission, left in the box.
use mathlib.Core.Path.{ap₂}
use arena.Common.{
  ℕ, ℤ, Bool, true, false, not, ◌&&◌, ◌≡◌, refl, sym, ap, ◌∙◌, Option, none, some, List, [], ◌∷◌,
  ◌⊎◌, inl, inr, if◌then◌else◌, subst,
}
use arena.Core.Limits.{Multiplier}
use arena.Core.Verdict.{is_accepted}
use arena.Core.Job.{JobSpec, TestRef, ExecOutcome, TestResult}
use arena.Langs.Manifest.{Manifest}
use arena.Judge.Box.{Dir, read_file, write_file, reset_box, reset_box-copy_tree}
use arena.Judge.Test.{
  RunSpec, Sandbox, Judge, JudgeError, no_testdata, preempted, Cache, Check, testdata, run_spec,
  judge_run, judged, settle_run, skipped_tests, prepend,
}
use arena.Judge.Run.{run_one, run_tests}

-- Two sandboxes that agree on what they observe and on the standard output of each run, whatever
-- else the program leaves in the box.
abbrev pub Agree : Option (ExecOutcome × Dir) → Option (ExecOutcome × Dir) → Type 0
Agree none none = Unit
Agree none (some r) = ⊥
Agree (some r) none = ⊥
Agree (some (out, b)) (some (out', b')) =
    (out ≡ out') × (read_file "stdout" b ≡ read_file "stdout" b')

-- The same error, or the same test result and cache.
abbrev AgreeOne :
    JudgeError ⊎ (TestResult × Dir × Cache) → JudgeError ⊎ (TestResult × Dir × Cache) → Type 0
AgreeOne (inl e) (inl f) = e ≡ f
AgreeOne (inl e) (inr r) = ⊥
AgreeOne (inr r) (inl e) = ⊥
AgreeOne (inr (tr, b, c)) (inr (tr', b', c')) = (tr ≡ tr') × (c ≡ c')

module _ (fl : Multiplier) (j : Judge fl) (sandbox' : Sandbox)
    (agree : (spec : RunSpec) (box : Dir) → Agree (j.sandbox spec box) (sandbox' spec box)) where
  open fl use {Float}

  abbrev j' : Judge fl
  j' = record j { sandbox = sandbox' }

  judged-AgreeOne :
      (o : Option TestResult) (b b' : Dir) (c : Cache)
      → AgreeOne (judged fl o b c) (judged fl o b' c)
  judged-AgreeOne none b b' c = refl
  judged-AgreeOne (some tr) b b' c = (refl, refl)

  settle_run-AgreeOne :
      (job : JobSpec Float) (chk : Check fl) (tc : TestRef) (expected : List ℕ) (cache : Cache)
      (r r' : Option (ExecOutcome × Dir))
      → Agree r r'
      → AgreeOne
          (settle_run fl job chk tc expected cache r)
          (settle_run fl job chk tc expected cache r')
  unfolding settle_run
  settle_run-AgreeOne job chk tc expected cache none none a = refl
  settle_run-AgreeOne job chk tc expected cache (some (out, b)) (some (out', b')) (e, f) =
      subst
        (λ o.
          AgreeOne (settle_run fl job chk tc expected cache (some (out, b))) (judged fl o b' cache))
        (ap₂ (judge_run fl job chk tc expected) e f)
        (judged-AgreeOne (judge_run fl job chk tc expected out (read_file "stdout" b)) b b' cache)
  settle_run-AgreeOne job chk tc expected cache none (some r) a = absurd a
  settle_run-AgreeOne job chk tc expected cache (some r) none a = absurd a

  same_reset : (box box' stash : Dir) → reset_box box stash ≡ reset_box box' stash
  same_reset box box' stash = reset_box-copy_tree box stash ∙ sym (reset_box-copy_tree box' stash)

  module _ (job : JobSpec Float) (m : Manifest Float) (chk : Check fl) (stash : Dir) (cpu : ℤ) where
    run_one-AgreeOne :
        (tc : TestRef) (box box' : Dir) (cache : Cache)
        → AgreeOne
            (run_one fl j job m chk tc box stash cpu cache)
            (run_one fl j' job m chk tc box' stash cpu cache)
    unfolding run_one
    run_one-AgreeOne tc box box' cache = found (testdata fl j.blobs job tc cache)
      where
        found :
            (o : Option (List ℕ × List ℕ × Cache))
            → AgreeOne
                (elim o as (λ _. JudgeError ⊎ (TestResult × Dir × Cache)) [
                  | none ↦ inl no_testdata
                  | some (input, expected, c) ↦ settle_run fl job chk tc expected c (
                      j.sandbox
                        (run_spec fl job m cpu)
                        (write_file "input" input (reset_box box stash)))
                ])
                (elim o as (λ _. JudgeError ⊎ (TestResult × Dir × Cache)) [
                  | none ↦ inl no_testdata
                  | some (input, expected, c) ↦ settle_run fl job chk tc expected c (
                      sandbox'
                        (run_spec fl job m cpu)
                        (write_file "input" input (reset_box box' stash)))
                ])
        found none = refl
        found (some (input, expected, c)) = settle_run-AgreeOne job chk tc expected c _ _ (
            subst
              (λ b.
                Agree
                  (j.sandbox (run_spec fl job m cpu)
                    (write_file "input" input (reset_box box stash)))
                  (sandbox' (run_spec fl job m cpu) (write_file "input" input b)))
              (same_reset box box' stash)
              (agree (run_spec fl job m cpu) (write_file "input" input (reset_box box stash))))

    abbrev Results : Type 0
    Results = JudgeError ⊎ (List TestResult × Cache)

    abbrev stops : TestResult → Bool
    stops tr = job.policy.stop_on_first_failure && not (is_accepted tr.verdict)

    -- Whatever the box holds at the beginning, and whatever each run leaves in it besides its
    -- standard output, the results of all tests are the same.
    pub run_tests-isolated :
        (tests : List TestRef) (box box' : Dir) (cache : Cache)
        → run_tests fl j job m chk tests box stash cpu cache
          ≡ run_tests fl j' job m chk tests box' stash cpu cache
    unfolding run_tests
    run_tests-isolated [] box box' cache = refl
    run_tests-isolated (tc ∷ tests) box box' cache =
        ap (λ z. if not (j.is_alive tc) then inl preempted else z)
          (step (run_one fl j job m chk tc box stash cpu cache)
            (run_one fl j' job m chk tc box' stash cpu cache) (run_one-AgreeOne tc box box' cache)
            (run_tests-isolated tests))
      where
        after : (Dir → Cache → Results) → JudgeError ⊎ (TestResult × Dir × Cache) → Results
        after rest (inl e) = inl e
        after rest (inr (tr, b, c)) = elim (stops tr) [
          | true ↦ inr (tr ∷ skipped_tests tc job.tests, c)
          | false ↦ prepend tr (rest b c)
        ]

        step :
            (r r' : JudgeError ⊎ (TestResult × Dir × Cache))
            → AgreeOne r r'
            → ((b b' : Dir) (c : Cache)
                → run_tests fl j job m chk tests b stash cpu c
                  ≡ run_tests fl j' job m chk tests b' stash cpu c)
            → after (λ b c. run_tests fl j job m chk tests b stash cpu c) r
              ≡ after (λ b c. run_tests fl j' job m chk tests b stash cpu c) r'
        step (inl e) (inl f) a rec = ap inl a
        step (inr (tr, b, c)) (inr (tr', b', c')) (e, f) rec =
            ap
              (λ z. elim (stops tr) as (λ _. Results) [
                | true ↦ inr (tr ∷ skipped_tests tc job.tests, c)
                | false ↦ prepend tr z
              ])
              (rec b b' c)
            ∙ ap₂
                (λ t k.
                  after (λ b c. run_tests fl j' job m chk tests b stash cpu c) (inr (t, b', k)))
                e f
        step (inl e) (inr r) a rec = absurd a
        step (inr r) (inl f) a rec = absurd a
