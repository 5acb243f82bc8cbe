-- ===== src/Core/Limits.antt =====
-- internal/core/limits.go: resource envelopes. Every field is an int64, kept as an integer; a
-- product or sum of the source is wrapped.
pub mod Usable
use arena.Common.{ℤ, pos, ◌+ℤ◌, ◌*ℤ◌, ltb_ℤ, leb_ℤ, wrap64, Bool, Option, none, some, if◌then◌else◌}

pub record Limits : Type 0 where
  pub cpu_ms : ℤ
  pub wall_ms : ℤ
  pub mem_mb : ℤ
  pub stdout_kb : ℤ
  pub pids : ℤ
  pub stack_mb : ℤ
  pub open_files : ℤ

pub record LimitSet : Type 0 where
  pub compile : Limits
  pub run : Limits

abbrev pub default_compile_limits : Limits
default_compile_limits = record {
  cpu_ms = pos 10_000;
  wall_ms = pos 20_000;
  mem_mb = pos 512;
  stdout_kb = pos 65_536;
  pids = pos 128;
  stack_mb = pos 64;
  open_files = pos 256;
}

abbrev pub default_run_limits : Limits
default_run_limits = record {
  cpu_ms = pos 2_000;
  wall_ms = pos 6_000;
  mem_mb = pos 256;
  stdout_kb = pos 1_024;
  pids = pos 64;
  stack_mb = pos 64;
  open_files = pos 64;
}

abbrev pub wall_ratio : ℤ
wall_ratio = pos 3

-- `if x <= 0 { x = d }`
unfoldable pub or_default : ℤ → ℤ → ℤ
or_default x d = if leb_ℤ x (pos 0) then d else x

-- `l.CPUms * wallRatio`
unfoldable pub wall_of_cpu : ℤ → ℤ
wall_of_cpu cpu = wrap64 (cpu *ℤ wall_ratio)

-- The second test of WallMs, which reads what the first one wrote.
unfoldable pub at_least_cpu : ℤ → ℤ → ℤ
at_least_cpu cpu wall = if ltb_ℤ wall cpu then wall_of_cpu cpu else wall

unfoldable pub normalize : Limits → Limits
normalize l =
    let cpu = or_default l.cpu_ms (pos 2_000) in
    record {
      cpu_ms = cpu;
      wall_ms = at_least_cpu cpu (or_default l.wall_ms (wall_of_cpu cpu));
      mem_mb = or_default l.mem_mb (pos 256);
      stdout_kb = or_default l.stdout_kb (pos 1_024);
      pids = or_default l.pids (pos 64);
      stack_mb = or_default l.stack_mb (pos 64);
      open_files = or_default l.open_files (pos 64);
    }

-- Which ceiling an ErrLimitOutOfRange names, with the value.
pub data LimitError : Type 0 where
  cpu_ms_exceeds wall_ms_exceeds mem_mb_exceeds stdout_kb_exceeds pids_exceeds : ℤ → LimitError

unfoldable pub validate : Limits → Option LimitError
validate l =
    if ltb_ℤ (pos 30_000) l.cpu_ms
    then some (cpu_ms_exceeds l.cpu_ms)
    else if ltb_ℤ (pos 60_000) l.wall_ms
    then some (wall_ms_exceeds l.wall_ms)
    else if ltb_ℤ (pos 2_048) l.mem_mb
    then some (mem_mb_exceeds l.mem_mb)
    else if ltb_ℤ (pos 65_536) l.stdout_kb
    then some (stdout_kb_exceeds l.stdout_kb)
    else if ltb_ℤ (pos 512) l.pids
    then some (pids_exceeds l.pids)
    else none

-- float64, which the language fixes and this library does not have: the operations that the
-- limits need. `scale x m` is `int64(float64(x) * m)`.
pub record Multiplier : Type 1 where
  pub Float : Type 0
  pub one : Float
  -- `x <= 0`, which is false of a NaN.
  pub at_most_zero : Float → Bool
  pub scale : ℤ → Float → ℤ

module _ (fl : Multiplier) where
  open fl use {Float, one, at_most_zero}

  unfoldable pub scale : Limits → Float → ℤ → Limits
  unfolding normalize
  scale l multiplier overhead =
      let m = if at_most_zero multiplier then one else multiplier in
      normalize (record l {
        cpu_ms = fl.scale l.cpu_ms m;
        wall_ms = fl.scale l.wall_ms m;
        mem_mb = wrap64 (l.mem_mb +ℤ overhead);
      })

-- Nanoseconds: `time.Duration(ms) * time.Millisecond`.
abbrev pub millisecond : ℤ
millisecond = pos 1_000_000

unfoldable pub cpu_duration : Limits → ℤ
cpu_duration l = wrap64 (l.cpu_ms *ℤ millisecond)

unfoldable pub wall_duration : Limits → ℤ
wall_duration l = wrap64 (l.wall_ms *ℤ millisecond)
