-- ===== src/Sandbox/Examples.antt =====
-- Tests of the sandbox, and its theorems at concrete inputs.
use arena.Common.{
  pos, negsuc, ◌+ℤ◌, ◌*ℤ◌, ◌<ℤ◌, wrap64, Bool, true, false, ◌≡◌, refl, none, some, [], ◌∷◌, arith,
}
use arena.Core.Limits.{default_run_limits}
use arena.Core.Limits.Usable.{defaults-IsUsable, validate-none}
use arena.Core.Verdict.{ac}
use arena.Core.Classify.{
  classify_run, output_flooded, memory_exhausted, time_exhausted, ended_abnormally,
}
use arena.Sandbox.Numbers.{format_int, format_digits, parse_int, parse_digits, parse_int-format_int}
use arena.Sandbox.Boxrun.{Env, execs, boxrun, starts, second}
use arena.Sandbox.Meta.{exited, Child, Rusage, measure, tvms}
use arena.Sandbox.Docker.{RunSpec, box_args, outcome_of}
use arena.Sandbox.Envelope.{rlimits_of, stage2-envelope}
use arena.Sandbox.Envelope.Arguments.{InRange}
use arena.Sandbox.Verdicts.{IsCharged, classify_run-measured}

format_small : format_int (negsuc 41) ≡ "-42"
unfolding format_int format_digits
format_small = refl

parse_too_big : parse_int "9223372036854775808" ≡ none
unfolding parse_int parse_digits
parse_too_big = refl

parse_written : parse_int (format_int (negsuc 41)) ≡ some (negsuc 41)
parse_written = parse_int-format_int (negsuc 41) (omega arith, omega arith)

abbrev spec : RunSpec
spec = record {
  name = "arena-r1-s1";
  image = "arena-python";
  cmd = "python3" ∷ "main.py" ∷ [];
  stdin_path = "/box/input";
  limits = default_run_limits;
  box_dir = "/tmp/box";
  env = "PYTHONHASHSEED=0" ∷ [];
  cpu_set = "1";
  network = false;
  disable_aslr = true;
}

in_range : InRange default_run_limits
in_range = record {
  cpu_int = (omega arith, omega arith);
  wall_int = (omega arith, omega arith);
  stdout_int = (omega arith, omega arith);
  stack_int = (omega arith, omega arith);
  files_int = (omega arith, omega arith);
}

-- An environment that tries to lift the limit on CPU time.
stage2-envelope_example :
    (child : Env) × (boxrun
        (λ l. true)
        (λ bin. true)
        (("BOXRUN_CPU_MS", "0") ∷ ("PATH", "/bin") ∷ [])
        (box_args spec)
      ≡ starts child spec.cmd)
    × (boxrun (λ l. true) (λ bin. true) child spec.cmd
        ≡ second (execs (rlimits_of spec.limits) spec.disable_aslr spec.cmd))
stage2-envelope_example =
    stage2-envelope spec (("BOXRUN_CPU_MS", "0") ∷ ("PATH", "/bin") ∷ []) (λ l. true) (λ bin. true)
      "python3" ("main.py" ∷ []) in_range (refl, (refl, tt)) refl (λ l. refl) refl

abbrev usage : Rusage
usage = record {
  utime = record { sec = pos 0; usec = pos 30_500 };
  stime = record { sec = pos 0; usec = pos 4_000 };
  maxrss = pos 9_000;
}

usage-IsCharged : IsCharged usage 0 30_500 0 4_000
usage-IsCharged = record {
  user = refl;
  system = refl;
  user_small = (omega arith, omega arith);
  system_small = (omega arith, omega arith);
}

abbrev finished : Child
finished = record {
  status = some (exited (pos 0));
  usage = some usage;
  wall_ms = pos 50;
  watchdog = false;
  stdout_size = some (pos 12);
  stderr_size = none;
}

finished_cpu : (measure (pos 2000) finished).cpu_ms ≡ pos 34
unfolding measure tvms wrap64 ◌+ℤ◌ ◌*ℤ◌
finished_cpu = refl

finished_accepted :
    classify_run (outcome_of false (pos 0) (measure (pos 2000) finished)) default_run_limits true
    ≡ ac
unfolding classify_run output_flooded memory_exhausted time_exhausted ended_abnormally outcome_of
    measure tvms wrap64 ◌+ℤ◌ ◌*ℤ◌
finished_accepted = refl

classify_run-measured_example :
    (finished.status ≡ some (exited (pos 0)))
    × (finished.watchdog ≡ false)
    × (◌≡◌ {A = Bool} false false)
    × (◌≡◌ {A = Bool} true true)
    × (pos 34_500 <ℤ pos 2_000_999)
    × (finished.wall_ms <ℤ pos 6000)
unfolding ◌+ℤ◌ ◌*ℤ◌
classify_run-measured_example =
    classify_run-measured default_run_limits finished false true (pos 0) usage 0 30_500 0 4_000 refl
      usage-IsCharged defaults-IsUsable.2 ((validate-none default_run_limits).1 defaults-IsUsable.3)
      finished_accepted
