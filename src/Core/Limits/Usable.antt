-- ===== src/Core/Limits/Usable.antt =====
-- `Normalize` makes limits usable, `Validate` bounds them.
use arena.Common.{
  ℕ, ◌*◌, ◌≤◌, ℤ, pos, negsuc, ◌*ℤ◌, ◌≤ℤ◌, ◌<ℤ◌, pos_part, wrap64, ◌≡◌, ◌↔◌, none, subst,
  Bool-cases, inl, inr, arith,
}
use arena.Core.Limits.{
  Limits, default_compile_limits, default_run_limits, or_default, at_least_cpu, wall_of_cpu,
  normalize, validate, Multiplier, scale, cpu_duration, wall_duration,
}

-- No cap is missing, and the wall budget leaves room for the CPU budget.
pub record IsUsable (l : Limits) : Type 0 where
  pub cpu_positive : pos 0 <ℤ l.cpu_ms
  pub wall_covers_cpu : l.cpu_ms ≤ℤ l.wall_ms
  pub mem_positive : pos 0 <ℤ l.mem_mb
  pub stdout_positive : pos 0 <ℤ l.stdout_kb
  pub pids_positive : pos 0 <ℤ l.pids
  pub stack_positive : pos 0 <ℤ l.stack_mb
  pub files_positive : pos 0 <ℤ l.open_files

-- The greatest CPU budget that times three is an int64.
abbrev pub cpu_ceiling : ℤ
cpu_ceiling = pos 3_074_457_345_618_258_602

wall_of_cpu_exact : (n : ℕ) → n ≤ 3_074_457_345_618_258_602 → wall_of_cpu (pos n) ≡ pos (n * 3)
unfolding wall_of_cpu wrap64 ◌*ℤ◌
wall_of_cpu_exact n h = ground arith

wall_of_cpu-ge : (cpu : ℤ) → pos 0 <ℤ cpu → cpu ≤ℤ cpu_ceiling → cpu ≤ℤ wall_of_cpu cpu
wall_of_cpu-ge (pos n) p h = ground (arith, wall_of_cpu_exact n)
wall_of_cpu-ge (negsuc n) p h = absurd (omega arith)

or_default-positive : (x d : ℤ) → pos 0 <ℤ d → pos 0 <ℤ or_default x d
unfolding or_default
or_default-positive x d h = ground arith

or_default-le : (x d m : ℤ) → x ≤ℤ m → d ≤ℤ m → or_default x d ≤ℤ m
unfolding or_default
or_default-le x d m h k = ground arith

or_default_self : (x d : ℤ) → pos 0 <ℤ x → or_default x d ≡ x
unfolding or_default
or_default_self x d h = ground arith

at_least_cpu-ge : (cpu wall : ℤ) → cpu ≤ℤ wall_of_cpu cpu → cpu ≤ℤ at_least_cpu cpu wall
unfolding at_least_cpu
at_least_cpu-ge cpu wall h = ground arith

at_least_cpu_self : (cpu wall : ℤ) → cpu ≤ℤ wall → at_least_cpu cpu wall ≡ wall
unfolding at_least_cpu
at_least_cpu_self cpu wall h = ground arith

usable : (l : Limits) → l.cpu_ms ≤ℤ cpu_ceiling → IsUsable (normalize l)
unfolding normalize
usable l h =
    let cpu = or_default l.cpu_ms (pos 2_000) in
    let positive = or_default-positive l.cpu_ms (pos 2_000) (omega arith) in
    let small = or_default-le l.cpu_ms (pos 2_000) cpu_ceiling h (omega arith) in
    record {
      cpu_positive = positive;
      wall_covers_cpu = at_least_cpu-ge cpu _ (wall_of_cpu-ge cpu positive small);
      mem_positive = or_default-positive l.mem_mb (pos 256) (omega arith);
      stdout_positive = or_default-positive l.stdout_kb (pos 1_024) (omega arith);
      pids_positive = or_default-positive l.pids (pos 64) (omega arith);
      stack_positive = or_default-positive l.stack_mb (pos 64) (omega arith);
      files_positive = or_default-positive l.open_files (pos 64) (omega arith);
    }

fixed : (l : Limits) → IsUsable l → normalize l ≡ l
unfolding normalize
fixed l u = simp (
  or_default_self l.cpu_ms (pos 2_000) u.cpu_positive,
  or_default_self l.wall_ms (wall_of_cpu l.cpu_ms) (omega arith),
  at_least_cpu_self l.cpu_ms l.wall_ms u.wall_covers_cpu,
  or_default_self l.mem_mb (pos 256) u.mem_positive,
  or_default_self l.stdout_kb (pos 1_024) u.stdout_positive,
  or_default_self l.pids (pos 64) u.pids_positive,
  or_default_self l.stack_mb (pos 64) u.stack_positive,
  or_default_self l.open_files (pos 64) u.files_positive,
)

-- `Normalize` of any limits, missing and negative ones included, whose CPU budget is at most
-- 2^63 / 3 is usable; and it changes nothing exactly when the limits are usable.
pub normalize-IsUsable :
    (l : Limits)
    → l.cpu_ms ≤ℤ cpu_ceiling
    → IsUsable (normalize l) × ((normalize l ≡ l) ↔ IsUsable l)
normalize-IsUsable l h = (usable l h, (λ e. subst IsUsable e (usable l h), fixed l))

-- Where three times the CPU budget is no int64 but less than 2^64, and no wall budget is given,
-- `Normalize` returns a negative wall budget: the limits are not usable.
pub normalize_overflow :
    (l : Limits) (n : ℕ)
    → l.cpu_ms ≡ pos n
    → 3_074_457_345_618_258_603 ≤ n
    → n ≤ 6_148_914_691_236_517_205
    → l.wall_ms ≤ℤ pos 0
    → (normalize l).wall_ms <ℤ pos 0
unfolding normalize or_default at_least_cpu wall_of_cpu wrap64 ◌*ℤ◌
normalize_overflow l n e lo hi w = ground arith

-- What `Validate` lets through.
pub record InRange (l : Limits) : Type 0 where
  pub cpu_bounded : l.cpu_ms ≤ℤ pos 30_000
  pub wall_bounded : l.wall_ms ≤ℤ pos 60_000
  pub mem_bounded : l.mem_mb ≤ℤ pos 2_048
  pub stdout_bounded : l.stdout_kb ≤ℤ pos 65_536
  pub pids_bounded : l.pids ≤ℤ pos 512

-- `Validate` returns no error exactly for limits under all five ceilings.
pub validate-none : (l : Limits) → (validate l ≡ none) ↔ InRange l
unfolding validate
validate-none l = (λ h. ground arith, λ r. ground arith)

-- Both default envelopes are usable and in range.
pub defaults-IsUsable :
    IsUsable default_compile_limits
    × InRange default_compile_limits
    × IsUsable default_run_limits
    × InRange default_run_limits
defaults-IsUsable = (omega arith, omega arith, omega arith, omega arith)

-- `Scale` by any multiplier and overhead returns usable limits, unless the CPU budget, scaled
-- by the multiplier or by one, passes 2^63 / 3.
pub scale-IsUsable :
    (fl : Multiplier) (l : Limits) (m : fl.Float) (overhead : ℤ)
    → fl.scale l.cpu_ms m ≤ℤ cpu_ceiling
    → fl.scale l.cpu_ms fl.one ≤ℤ cpu_ceiling
    → IsUsable (scale fl l m overhead)
unfolding scale
scale-IsUsable fl l m overhead h k = elim (Bool-cases (fl.at_most_zero m)) [
  | inl p ↦ rw p (usable _ k)
  | inr p ↦ rw p (usable _ h)
]

ms_exact :
    (z : ℤ)
    → pos 0 <ℤ z
    → z ≤ℤ pos 60_000
    → wrap64 (z *ℤ pos 1_000_000) ≡ pos (pos_part z * 1_000_000)
unfolding wrap64 ◌*ℤ◌
ms_exact (pos n) p h = ground arith
ms_exact (negsuc n) p h = absurd (omega arith)

-- For usable limits in range the two durations are exact, in nanoseconds.
pub durations_exact :
    (l : Limits)
    → IsUsable l
    → InRange l
    → (cpu_duration l ≡ pos (pos_part l.cpu_ms * 1_000_000))
      × (wall_duration l ≡ pos (pos_part l.wall_ms * 1_000_000))
unfolding cpu_duration wall_duration
durations_exact l u r = (
  ms_exact l.cpu_ms u.cpu_positive (omega (arith, r.cpu_bounded)),
  ms_exact l.wall_ms (omega (arith, u.cpu_positive, u.wall_covers_cpu)) r.wall_bounded,
)
