-- ===== src/Sandbox/Meta.antt =====
-- What cmd/boxrun/main.go reports of the process that it ran, from what the kernel tells it.
use arena.Common.{
  suc, ◌/◌, ℤ, pos, negsuc, ◌+ℤ◌, ◌-ℤ◌, ◌*ℤ◌, wrap64, ltb_ℤ, leb_ℤ, eqb_ℤ, Bool, false, ◌&&◌, ◌||◌,
  Option, none, some,
}

pub record Meta : Type 0 where
  pub exit_code : ℤ
  pub signal : ℤ
  pub cpu_ms : ℤ
  pub user_ms : ℤ
  pub sys_ms : ℤ
  pub wall_ms : ℤ
  pub max_rss_kb : ℤ
  pub wall_kill : Bool
  pub cpu_kill : Bool
  pub fsize_kill : Bool
  pub stdout_len : ℤ
  pub stderr_len : ℤ

abbrev pub no_meta : Meta
no_meta = record {
  exit_code = pos 0;
  signal = pos 0;
  cpu_ms = pos 0;
  user_ms = pos 0;
  sys_ms = pos 0;
  wall_ms = pos 0;
  max_rss_kb = pos 0;
  wall_kill = false;
  cpu_kill = false;
  fsize_kill = false;
  stdout_len = pos 0;
  stderr_len = pos 0;
}

pub data WaitStatus : Type 0 where
  signaled : ℤ → WaitStatus
  exited : ℤ → WaitStatus

-- Seconds and microseconds.
pub record Timeval : Type 0 where
  pub sec : ℤ
  pub usec : ℤ

pub record Rusage : Type 0 where
  pub utime : Timeval
  pub stime : Timeval
  pub maxrss : ℤ

-- The child behind `Wait`: how it ended and what it used, if the kernel says so, the wall time,
-- whether the watchdog fired, and the sizes of the two files, if they are there.
pub record Child : Type 0 where
  pub status : Option WaitStatus
  pub usage : Option Rusage
  pub wall_ms : ℤ
  pub watchdog : Bool
  pub stdout_size : Option ℤ
  pub stderr_size : Option ℤ

-- The quotient by 1,000, cut towards 0.
abbrev pub thousandth : ℤ → ℤ
thousandth (pos n) = pos (n / 1000)
thousandth (negsuc n) = pos 0 -ℤ pos (suc n / 1000)

unfoldable pub tvms : Timeval → ℤ
tvms t = wrap64 (wrap64 (t.sec *ℤ pos 1000) +ℤ thousandth t.usec)

abbrev pub with_status : WaitStatus → Meta → Meta
with_status (signaled s) m = record m {
  signal = s;
  exit_code = wrap64 (pos 128 +ℤ s);
  cpu_kill = eqb_ℤ s (pos 24);
  fsize_kill = eqb_ℤ s (pos 25);
}
with_status (exited code) m = record m { exit_code = code }

abbrev pub with_usage : Option Rusage → Meta → Meta
with_usage none m = m
with_usage (some ru) m = record m {
  user_ms = tvms ru.utime;
  sys_ms = tvms ru.stime;
  cpu_ms = wrap64 (tvms ru.utime +ℤ tvms ru.stime);
  max_rss_kb = ru.maxrss;
}

-- Without a state the code is 127: `Wait` has failed then.
abbrev pub with_state : Option WaitStatus → Option Rusage → Meta → Meta
with_state none usage m = record m { exit_code = pos 127 }
with_state (some status) usage m = with_usage usage (with_status status m)

abbrev pub size_or : Option ℤ → ℤ
size_or none = pos 0
size_or (some n) = n

-- The metrics, for a CPU budget.
unfoldable pub measure : ℤ → Child → Meta
unfolding tvms
measure cpu_ms c =
    let m =
      with_state c.status c.usage
        (record no_meta { wall_ms = c.wall_ms; wall_kill = c.watchdog }) in
    record m {
      cpu_kill = m.cpu_kill || (ltb_ℤ (pos 0) cpu_ms && leb_ℤ cpu_ms m.cpu_ms);
      stdout_len = size_or c.stdout_size;
      stderr_len = size_or c.stderr_size;
    }
