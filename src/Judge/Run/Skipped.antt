-- ===== src/Judge/Run/Skipped.antt =====
-- The tests behind the first failure, which do not run.
use arena.Common.{
  ℤ, pos, ◌+ℤ◌, ltb_ℤ, wrap64, false, ◌≡◌, List, [], ◌∷◌, if◌then◌else◌, inr, ◌++◌, ◌⊎◌, true, All,
}
use arena.Core.Limits.{Multiplier}
use arena.Langs.Manifest.{Manifest}
use arena.Judge.Box.{Dir}
use arena.Judge.Run.{run_one}
use arena.Core.Verdict.{is_accepted}
use arena.Core.Job.{JobSpec, TestRef, TestResult}
use arena.Core.Scoring.{points_at}
use arena.Judge.Test.{skipped_tests, Judge, Check, Cache}

-- The points of the tests whose index is greater than that of a test.
unfoldable pub later_points : ℤ → TestRef → List TestRef → List TestRef → ℤ
later_points total tc [] refs = total
later_points total tc (rest ∷ tests) refs =
    later_points
      (if ltb_ℤ tc.index rest.index
        then wrap64 (total +ℤ points_at rest.index refs (pos 0))
        else total)
      tc tests refs

module _ (fl : Multiplier) (j : Judge fl) (job : JobSpec fl.Float) (m : Manifest fl.Float)
    (chk : Check fl) (stash : Dir) (cpu : ℤ) where
  -- The test ran, in some box, with this result.
  abbrev pub RanAs : TestRef → TestResult → Type 0
  RanAs tc tr =
      (box : Dir) × (cache : Cache) × (box' : Dir) × (cache' : Cache) × (run_one fl j job m chk tc
          box stash cpu cache
        ≡ inr (tr, box', cache'))

  -- Tests that passed, one that ran and failed, and the later ones, which did not run.
  pub record IsStopped (passed : List TestResult) (tc : TestRef) (tr : TestResult)
      (trs : List TestResult) : Type 0 where
    pub shape : trs ≡ passed ++ tr ∷ skipped_tests tc job.tests
    pub accepted : All (λ t. is_accepted t.verdict ≡ true) passed
    pub ran : RanAs tc tr
    pub failed : is_accepted tr.verdict ≡ false

  abbrev pub Stops : List TestResult → Type 0
  Stops trs =
      All (λ t. is_accepted t.verdict ≡ true) trs
      ⊎ ((passed : List TestResult) × (tc : TestRef) × (tr : TestResult) × IsStopped passed tc tr
            trs)
