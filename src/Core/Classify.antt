-- ===== src/Core/Classify.antt =====
-- `ClassifyRun` of internal/core/job.go: one outcome, one verdict.
use arena.Common.{
  ℤ, pos, negsuc, ◌*ℤ◌, ◌≤ℤ◌, ◌<ℤ◌, ltb_ℤ, leb_ℤ, eqb_ℤ, wrap64, Bool, true, false, ◌&&◌, ◌||◌, not,
  eqb_ℤ_iff, ◌≢◌, ◌≡◌, ◌↔◌, none, if◌then◌else◌, arith,
}
use arena.Core.Limits.{Limits, validate}
use arena.Core.Limits.Usable.{IsUsable, validate-none}
use arena.Core.Verdict.{Verdict, ac, wa, tle, mle, re, ole, severity, worst_of}
use arena.Core.Job.{ExecOutcome}

-- The guards of the four early returns.
unfoldable pub output_flooded : ExecOutcome → Limits → Bool
output_flooded out lim =
    out.fsize_kill
    || (ltb_ℤ (pos 0) lim.stdout_kb && leb_ℤ (wrap64 (lim.stdout_kb *ℤ pos 1024)) out.stdout_len)

unfoldable pub memory_exhausted : ExecOutcome → Limits → Bool
memory_exhausted out lim =
    out.oom_killed
    || (ltb_ℤ (pos 0) lim.mem_mb && leb_ℤ (wrap64 (lim.mem_mb *ℤ pos 1024)) out.max_rss_kb)

unfoldable pub time_exhausted : ExecOutcome → Limits → Bool
time_exhausted out lim =
    out.wall_kill
    || eqb_ℤ out.signal (pos 24)
    || (ltb_ℤ (pos 0) lim.cpu_ms && leb_ℤ lim.cpu_ms out.cpu_ms)
    || (ltb_ℤ (pos 0) lim.wall_ms && leb_ℤ lim.wall_ms out.wall_ms)

unfoldable pub ended_abnormally : ExecOutcome → Bool
ended_abnormally out = not (eqb_ℤ out.signal (pos 0)) || not (eqb_ℤ out.exit_code (pos 0))

unfoldable pub classify_run : ExecOutcome → Limits → Bool → Verdict
classify_run out lim output_correct =
    if output_flooded out lim
    then ole
    else if memory_exhausted out lim
    then mle
    else if time_exhausted out lim
    then tle
    else if ended_abnormally out
    then re
    else if not output_correct
    then wa
    else ac

-- The verdict of one fact alone.
abbrev pub blame : Bool → Verdict → Verdict
blame b v = if b then v else ac

-- The order of the returns is the order of severity: the verdict is the worst, by `worst_of`, of
-- the verdicts that the five facts call for, whatever the limits are.
pub classify_run-eq-worst_of :
    (out : ExecOutcome) (lim : Limits) (correct : Bool)
    → classify_run out lim correct
      ≡ worst_of (blame (not correct) wa) (
          worst_of (blame (ended_abnormally out) re) (
            worst_of (blame (time_exhausted out lim) tle) (
              worst_of
                (blame (memory_exhausted out lim) mle)
                (blame (output_flooded out lim) ole))))
unfolding classify_run worst_of severity
classify_run-eq-worst_of out lim correct = ground arith

-- A run with nothing to hold against it.
pub record IsClean (out : ExecOutcome) (lim : Limits) : Type 0 where
  pub exit_zero : out.exit_code ≡ pos 0
  pub no_signal : out.signal ≡ pos 0
  pub not_flooding : out.fsize_kill ≡ false
  pub not_oom : out.oom_killed ≡ false
  pub not_late : out.wall_kill ≡ false
  pub output_fits : out.stdout_len <ℤ lim.stdout_kb *ℤ pos 1024
  pub memory_fits : out.max_rss_kb <ℤ lim.mem_mb *ℤ pos 1024
  pub cpu_fits : out.cpu_ms <ℤ lim.cpu_ms
  pub wall_fits : out.wall_ms <ℤ lim.wall_ms

kib_exact : (z : ℤ) → pos 0 <ℤ z → z ≤ℤ pos 65_536 → wrap64 (z *ℤ pos 1024) ≡ z *ℤ pos 1024
unfolding wrap64 ◌*ℤ◌
kib_exact (pos n) p h = ground arith
kib_exact (negsuc n) p h = absurd (omega arith)

record NoFault (out : ExecOutcome) (lim : Limits) (correct : Bool) : Type 0 where
  fits : output_flooded out lim ≡ false
  held : memory_exhausted out lim ≡ false
  timely : time_exhausted out lim ≡ false
  normal : ended_abnormally out ≡ false
  right : correct ≡ true

accepted_iff_NoFault :
    (out : ExecOutcome) (lim : Limits) (correct : Bool)
    → (classify_run out lim correct ≡ ac) ↔ NoFault out lim correct
unfolding classify_run
accepted_iff_NoFault out lim correct = (λ h. ground arith, λ h. ground arith)

not_sigxcpu : {z : ℤ} → z ≡ pos 0 → z ≢ pos 24
not_sigxcpu h e = ground arith

module _ (out : ExecOutcome) (lim : Limits) (u : IsUsable lim) (v : validate lim ≡ none) where
  output_flooded_iff :
      (output_flooded out lim ≡ false)
      ↔ ((out.fsize_kill ≡ false) × (out.stdout_len <ℤ lim.stdout_kb *ℤ pos 1024))
  unfolding output_flooded
  output_flooded_iff =
      rw (kib_exact lim.stdout_kb u.stdout_positive ((validate-none lim).0 v).stdout_bounded)
        (λ h. ground arith, λ h. ground arith)

  memory_exhausted_iff :
      (memory_exhausted out lim ≡ false)
      ↔ ((out.oom_killed ≡ false) × (out.max_rss_kb <ℤ lim.mem_mb *ℤ pos 1024))
  unfolding memory_exhausted
  memory_exhausted_iff =
      rw
        (kib_exact lim.mem_mb u.mem_positive (omega (arith, ((validate-none lim).0 v).mem_bounded)))
        (λ h. ground arith, λ h. ground arith)

  time_exhausted_iff : (time_exhausted out lim ≡ false) ↔ (
      (out.wall_kill ≡ false)
      × (out.signal ≢ pos 24)
      × (out.cpu_ms <ℤ lim.cpu_ms)
      × (out.wall_ms <ℤ lim.wall_ms))
  unfolding time_exhausted
  time_exhausted_iff = (
    λ h. ground (arith, eqb_ℤ_iff out.signal (pos 24)),
    λ h. ground (arith, eqb_ℤ_iff out.signal (pos 24)),
  )

  ended_abnormally_iff :
      (ended_abnormally out ≡ false) ↔ ((out.signal ≡ pos 0) × (out.exit_code ≡ pos 0))
  unfolding ended_abnormally
  ended_abnormally_iff = (λ h. ground arith, λ h. ground arith)

  -- Under usable limits that `Validate` accepts, the verdict is AC exactly when the output is
  -- correct, the process exited with code 0 and no signal, nothing killed it, and each measured
  -- amount stays strictly below its cap.
  pub classify_run-accepted :
      (correct : Bool) → (classify_run out lim correct ≡ ac) ↔ ((correct ≡ true) × IsClean out lim)
  classify_run-accepted correct = (
    λ h.
        let n = (accepted_iff_NoFault out lim correct).0 h in
        let (f, o) = output_flooded_iff.0 n.fits in
        let (k, m) = memory_exhausted_iff.0 n.held in
        let (w, x, c, t) = time_exhausted_iff.0 n.timely in
        let (s, e) = ended_abnormally_iff.0 n.normal in
        (
          n.right,
          record {
            exit_zero = e;
            no_signal = s;
            not_flooding = f;
            not_oom = k;
            not_late = w;
            output_fits = o;
            memory_fits = m;
            cpu_fits = c;
            wall_fits = t;
          },
        ),
    λ p.
        let c = p.1 in
        (accepted_iff_NoFault out lim correct).1 (record {
          fits = output_flooded_iff.1 (c.not_flooding, c.output_fits);
          held = memory_exhausted_iff.1 (c.not_oom, c.memory_fits);
          timely =
              time_exhausted_iff.1 (c.not_late, not_sigxcpu c.no_signal, c.cpu_fits, c.wall_fits);
          normal = ended_abnormally_iff.1 (c.no_signal, c.exit_zero);
          right = p.0;
        }),
  )
