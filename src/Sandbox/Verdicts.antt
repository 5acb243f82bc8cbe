-- ===== src/Sandbox/Verdicts.antt =====
-- From the kernel's account of a process to its verdict: boxrun's metrics, the sandbox's outcome and
-- the classification.
use arena.Common.{
  ℕ, ◌+◌, ◌*◌, ◌/◌, ◌^◌, ◌<◌, ap, ◌*ℤ◌, ℤ, pos, ◌<ℤ◌, ◌+ℤ◌, wrap64, Bool, true, false, ◌≡◌, sym,
  subst, ◌∙◌, Option, none, some, arith,
}
use arena.Core.Limits.{Limits, validate}
use arena.Core.Limits.Usable.{IsUsable}
use arena.Core.Verdict.{ac, ole, tle}
use arena.Core.Classify.{
  classify_run, output_flooded, memory_exhausted, time_exhausted, classify_run-accepted,
}
use arena.Sandbox.Meta.{WaitStatus, signaled, exited, Rusage, Child, tvms, measure}
use arena.Sandbox.Docker.{outcome_of}

-- The milliseconds that boxrun makes of the CPU time.
abbrev pub charged : Option Rusage → ℤ
charged none = pos 0
charged (some ru) = wrap64 (tvms ru.utime +ℤ tvms ru.stime)

measured-cpu :
    (budget : ℤ) (c : Child) (s : WaitStatus)
    → c.status ≡ some s
    → (measure budget c).cpu_ms ≡ charged c.usage
unfolding measure
measured-cpu budget c s e = ground arith

measured-exit :
    (budget : ℤ) (c : Child)
    → (measure budget c).exit_code ≡ pos 0
    → (measure budget c).signal ≡ pos 0
    → c.status ≡ some (exited (pos 0))
unfolding measure wrap64 ◌+ℤ◌
measured-exit budget c e s = ground arith

measured-watchdog : (budget : ℤ) (c : Child) → (measure budget c).wall_kill ≡ c.watchdog
unfolding measure
measured-watchdog budget c = ground arith

measured-wall : (budget : ℤ) (c : Child) → (measure budget c).wall_ms ≡ c.wall_ms
unfolding measure
measured-wall budget c = ground arith

-- What the kernel charges in user and system mode, in seconds and microseconds, in fewer than 2^40
-- seconds each.
pub record IsCharged (ru : Rusage) (us uu ss su : ℕ) : Type 0 where
  pub user : ru.utime ≡ record { sec = pos us; usec = pos uu }
  pub system : ru.stime ≡ record { sec = pos ss; usec = pos su }
  pub user_small : (us < 2 ^ 40) × (uu < 1_000_000)
  pub system_small : (ss < 2 ^ 40) × (su < 1_000_000)

tvms-exact :
    (s u : ℕ)
    → s < 2 ^ 40
    → u < 1_000_000
    → tvms (record { sec = pos s; usec = pos u }) ≡ pos (s * 1000 + u / 1000)
unfolding tvms wrap64 ◌+ℤ◌ ◌*ℤ◌
tvms-exact s u h k = ground arith

sum_small : (a b : ℕ) → a + b < 2 ^ 62 → wrap64 (pos a +ℤ pos b) ≡ pos (a + b)
unfolding wrap64 ◌+ℤ◌
sum_small a b h = ground arith

charged_micros :
    (ru : Rusage) (us uu ss su : ℕ)
    → IsCharged ru us uu ss su
    → charged (some ru) ≡ pos (us * 1000 + uu / 1000 + (ss * 1000 + su / 1000))
charged_micros ru us uu ss su h =
    rw
      (
        h.user,
        h.system,
        tvms-exact us uu h.user_small.0 h.user_small.1,
        tvms-exact ss su h.system_small.0 h.system_small.1,
      )
      (sum_small (us * 1000 + uu / 1000) (ss * 1000 + su / 1000)
        (omega (arith, h.user_small, h.system_small)))

below_cap :
    (cap : ℤ) (us uu ss su : ℕ)
    → pos (us * 1000 + uu / 1000 + (ss * 1000 + su / 1000)) <ℤ cap
    → pos ((us + ss) * 1_000_000 + uu + su) <ℤ cap *ℤ pos 1000 +ℤ pos 999
unfolding ◌+ℤ◌ ◌*ℤ◌
below_cap cap us uu ss su h = ground arith

-- AC, through all of the sandbox, says this of the process: it exited with code 0, the watchdog did
-- not fire, the container ran into no memory limit, the CPU time that the kernel charges, user and
-- system together in microseconds, is below the cap and 999 microseconds (boxrun cuts each part
-- down to milliseconds), the wall time is below its cap, and the output is right: for usable
-- limits that `Validate` accepts.
pub classify_run-measured :
    (lim : Limits) (c : Child) (oom correct : Bool) (inspect_exit : ℤ) (ru : Rusage)
    (us uu ss su : ℕ)
    → c.usage ≡ some ru
    → IsCharged ru us uu ss su
    → IsUsable lim
    → validate lim ≡ none
    → classify_run (outcome_of oom inspect_exit (measure lim.cpu_ms c)) lim correct ≡ ac
    → (c.status ≡ some (exited (pos 0)))
      × (c.watchdog ≡ false)
      × (oom ≡ false)
      × (correct ≡ true)
      × (pos ((us + ss) * 1_000_000 + uu + su) <ℤ lim.cpu_ms *ℤ pos 1000 +ℤ pos 999)
      × (c.wall_ms <ℤ lim.wall_ms)
unfolding outcome_of
classify_run-measured lim c oom correct inspect_exit ru us uu ss su used charge u v a =
    let out = outcome_of oom inspect_exit (measure lim.cpu_ms c) in
    let (right, clean) = (classify_run-accepted out lim u v correct).0 a in
    let status = measured-exit lim.cpu_ms c clean.exit_zero clean.no_signal in
    (
      status,
      sym (measured-watchdog lim.cpu_ms c) ∙ clean.not_late,
      ground (arith, clean.not_oom),
      right,
      below_cap lim.cpu_ms us uu ss su (
          subst (λ t. t <ℤ lim.cpu_ms)
            (measured-cpu lim.cpu_ms c (exited (pos 0)) status
              ∙ ap charged used
              ∙ charged_micros ru us uu ss su charge)
            clean.cpu_fits),
      subst (λ t. t <ℤ lim.wall_ms) (measured-wall lim.cpu_ms c) clean.wall_fits,
    )

-- A process that SIGXFSZ ended is judged OLE, whatever else is measured and whatever it printed.
pub classify_run-sigxfsz :
    (lim : Limits) (c : Child) (oom correct : Bool) (inspect_exit budget : ℤ)
    → c.status ≡ some (signaled (pos 25))
    → classify_run (outcome_of oom inspect_exit (measure budget c)) lim correct ≡ ole
unfolding classify_run output_flooded outcome_of measure
classify_run-sigxfsz lim c oom correct inspect_exit budget e = ground arith

-- One that SIGXCPU ended is judged TLE, if it neither flooded its output nor ran out of memory.
pub classify_run-sigxcpu :
    (lim : Limits) (c : Child) (oom correct : Bool) (inspect_exit budget : ℤ)
    → c.status ≡ some (signaled (pos 24))
    → output_flooded (outcome_of oom inspect_exit (measure budget c)) lim ≡ false
    → memory_exhausted (outcome_of oom inspect_exit (measure budget c)) lim ≡ false
    → classify_run (outcome_of oom inspect_exit (measure budget c)) lim correct ≡ tle
unfolding classify_run time_exhausted outcome_of measure
classify_run-sigxcpu lim c oom correct inspect_exit budget e f m = ground arith
