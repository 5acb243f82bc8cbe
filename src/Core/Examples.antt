-- ===== src/Core/Examples.antt =====
-- Tests of internal/core, and its theorems at concrete inputs.
use arena.Common.{
  ℤ, pos, negsuc, ◌≤ℤ◌, ◌<ℤ◌, ◌+ℤ◌, ◌↔◌, ◌≡◌, refl, Bool, true, false, List, [], ◌∷◌, arith, leb_ℤ,
  ◌*ℤ◌, ◌*◌, wrap64,
}
use arena.Core.Verdict.{ac, wa, tle, mle, re, ole, is_accepted, worst_of}
use arena.Core.Limits.{
  Limits, default_run_limits, normalize, or_default, at_least_cpu, wall_of_cpu, Multiplier,
}
use arena.Core.Limits.Usable.{normalize_overflow, validate-none, defaults-IsUsable}
use arena.Core.Job.{ExecOutcome, TestResult}
use arena.Core.Classify.{
  output_flooded, memory_exhausted, time_exhausted, ended_abnormally, classify_run, IsClean, blame,
  classify_run-eq-worst_of, classify_run-accepted,
}
use arena.Core.Aggregate.{aggregate}
use arena.Core.Aggregate.FirstFailure.{
  aggregate-first_failure, first_failure, peak, verdict_of, index_of,
}
use arena.Core.Scoring.{UserProblemStat, speed, rank_score, zset_scale}
use arena.Core.Scoring.Ranking.{solved_count, rank_score-solved}

abbrev empty_limits : Limits
empty_limits = record {
  cpu_ms = pos 1500;
  wall_ms = pos 1000;
  mem_mb = negsuc 4;
  stdout_kb = pos 0;
  pids = pos 0;
  stack_mb = pos 0;
  open_files = pos 9;
}

normalize_fills : (normalize empty_limits).wall_ms ≡ pos 4500
unfolding normalize or_default at_least_cpu wall_of_cpu wrap64 ◌*ℤ◌
normalize_fills = refl

abbrev huge_limits : Limits
huge_limits = record empty_limits { cpu_ms = pos 4_000_000_000_000_000_000; wall_ms = pos 0 }

normalize_overflow_example : (normalize huge_limits).wall_ms <ℤ pos 0
normalize_overflow_example =
    normalize_overflow huge_limits 4_000_000_000_000_000_000 refl (omega arith) (omega arith)
      (omega arith)

-- A multiplier that is a whole number.
abbrev whole : Multiplier
whole = record {
  Float = ℤ;
  one = pos 1;
  at_most_zero = λ m. leb_ℤ m (pos 0);
  scale = λ x m. x *ℤ m;
}

abbrev clean_run : ExecOutcome
clean_run = record {
  exit_code = pos 0;
  signal = pos 0;
  cpu_ms = pos 120;
  wall_ms = pos 200;
  max_rss_kb = pos 4096;
  oom_killed = false;
  wall_kill = false;
  fsize_kill = false;
  stdout_len = pos 10;
  instructions = pos 0;
  stderr = "";
}

abbrev oom_run : ExecOutcome
oom_run = record clean_run { exit_code = pos 137; signal = pos 9; oom_killed = true }

oom_is_mle : classify_run oom_run default_run_limits false ≡ mle
unfolding classify_run output_flooded memory_exhausted wrap64 ◌*ℤ◌
oom_is_mle = refl

classify_run-eq-worst_of_example :
    classify_run oom_run default_run_limits false
    ≡ worst_of (blame true wa) (
        worst_of (blame (ended_abnormally oom_run) re) (
          worst_of (blame (time_exhausted oom_run default_run_limits) tle) (
            worst_of
              (blame (memory_exhausted oom_run default_run_limits) mle)
              (blame (output_flooded oom_run default_run_limits) ole))))
classify_run-eq-worst_of_example = classify_run-eq-worst_of oom_run default_run_limits false

classify_run-accepted_example :
    (classify_run clean_run default_run_limits true ≡ ac)
    ↔ ((◌≡◌ {A = Bool} true true) × IsClean clean_run default_run_limits)
classify_run-accepted_example =
    classify_run-accepted clean_run default_run_limits defaults-IsUsable.2
      ((validate-none default_run_limits).1 defaults-IsUsable.3) true

abbrev passed_test : TestResult
passed_test = record {
  index = pos 1;
  verdict = ac;
  cpu_ms = pos 10;
  wall_ms = pos 12;
  mem_kb = pos 1000;
  exit_code = pos 0;
  signal = pos 0;
  message = [];
  skipped = false;
  sample_out = [];
}

abbrev three_tests : List TestResult
three_tests =
    passed_test
    ∷ record passed_test { index = pos 2; verdict = wa; cpu_ms = pos 40 }
    ∷ record passed_test { index = pos 5; verdict = mle; mem_kb = pos 90000 }
    ∷ []

aggregate-first_failure_example : aggregate three_tests ≡ record {
  verdict = verdict_of ac (first_failure three_tests);
  cpu_ms = peak (λ t. t.cpu_ms) three_tests;
  wall_ms = peak (λ t. t.wall_ms) three_tests;
  mem_kb = peak (λ t. t.mem_kb) three_tests;
  failed_test = index_of (first_failure three_tests);
}
aggregate-first_failure_example =
    aggregate-first_failure three_tests ((λ e. cc), ((λ e. cc), ((λ e. cc), tt)))

first_failure_runs : aggregate three_tests ≡ record {
  verdict = wa;
  cpu_ms = pos 40;
  wall_ms = pos 12;
  mem_kb = pos 90000;
  failed_test = pos 2;
}
unfolding aggregate is_accepted
first_failure_runs = refl

abbrev solved_in : ℤ → UserProblemStat
solved_in cpu = record {
  solved = true;
  attempts = pos 1;
  best_cpu_ms = cpu;
  best_mem_kb = pos 0;
  instructions = pos 0;
  solved_at = pos 0;
}

abbrev one_fast : List UserProblemStat
one_fast = solved_in (pos 1) ∷ []

abbrev two_slow : List UserProblemStat
two_slow = solved_in (pos 9_000_000_000) ∷ solved_in (pos 7) ∷ []

rank_score-solved_example :
    (rank_score speed one_fast (pos 0) <ℤ rank_score speed two_slow (pos 0))
    × (pos (solved_count two_slow * zset_scale)
        <ℤ rank_score speed two_slow (pos 0) +ℤ pos zset_scale)
    × (rank_score speed two_slow (pos 0) ≤ℤ pos (solved_count two_slow * zset_scale))
rank_score-solved_example =
    rank_score-solved speed (pos 0) one_fast two_slow (unfold solved_count in omega arith)
