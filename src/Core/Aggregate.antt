-- ===== src/Core/Aggregate.antt =====
-- `Aggregate` of internal/core/job.go: the verdict and metrics of a submission from its tests.
pub mod FirstFailure
use arena.Common.{
  ℕ, ℤ, pos, negsuc, ◌≤ℤ◌, ltb_ℤ, eqb_ℤ, Bool, true, false, ◌&&◌, not, ◌≡◌, ◌≢◌, refl, List, [],
  ◌∷◌, Option, none, some, if◌then◌else◌, arith, All, eqb_ℤ_iff,
}
use arena.Core.Verdict.{Verdict, ac, is_accepted}
use arena.Core.Job.{TestResult}

-- The named results of the function: its loop variables.
pub record Summary : Type 0 where
  pub verdict : Verdict
  pub cpu_ms : ℤ
  pub wall_ms : ℤ
  pub mem_kb : ℤ
  pub failed_test : ℤ

abbrev pub keep_max : ℤ → ℤ → ℤ
keep_max x m = if ltb_ℤ m x then x else m

unfoldable pub count_test : Summary → TestResult → Summary
count_test s t =
    if t.skipped
    then s
    else let failing = not (is_accepted t.verdict) && eqb_ℤ s.failed_test (negsuc 0) in
      record {
        verdict = if failing then t.verdict else s.verdict;
        cpu_ms = keep_max t.cpu_ms s.cpu_ms;
        wall_ms = keep_max t.wall_ms s.wall_ms;
        mem_kb = keep_max t.mem_kb s.mem_kb;
        failed_test = if failing then t.index else s.failed_test;
      }

unfoldable pub aggregate_from : Summary → List TestResult → Summary
aggregate_from s [] = s
aggregate_from s (t ∷ ts) = aggregate_from (count_test s t) ts

abbrev pub no_tests : Summary
no_tests = record {
  verdict = ac;
  cpu_ms = pos 0;
  wall_ms = pos 0;
  mem_kb = pos 0;
  failed_test = negsuc 0;
}

unfoldable pub aggregate : List TestResult → Summary
unfolding aggregate_from count_test
aggregate = aggregate_from no_tests
