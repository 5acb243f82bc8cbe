-- ===== src/Sandbox/Envelope.antt =====
-- The limits of a run, from the sandbox through the flags and the environment to the kernel.
pub mod Arguments
use Prim.Native.String.{◌++◌ as str_append}
use arena.Common.{
  ℕ, ◌+◌, ◌*◌, ◌/◌, ◌^◌, ◌≤◌, ◌<◌, ℤ, pos, ◌+ℤ◌, wrap64, String, str_eq, str_eq_iff, Bool, true,
  false, ◌≡◌, refl, ap, sym, ◌∙◌, Option, none, some, List, [], ◌∷◌, ◌++◌, IsInt64, All, Bool-cases,
  inl, inr, if◌then◌else◌, arith,
}
use arena.Core.Limits.{Limits}
use arena.Sandbox.Numbers.{format_int, parse_int, parse_int-format_int}
use arena.Sandbox.Boxrun.{
  Flags, default_flags, set_flag, with_int, then_parse, parse_flags, Env, bool_str, child_env,
  getenv_from, getenv, int_or, env_int, Rlimit, fsize, stack, open_files, core, cpu, cpu_limit,
  size_limit, limit_of, stage2_limits, execs, all_set, stage2, boxrun, second, starts,
}
use arena.Sandbox.Docker.{RunSpec, inner_wall, bool_text, box_args}
use arena.Sandbox.Envelope.Arguments.{flags_of, InRange, parse_flags-box_args}

getenv_from-append :
    (found name : String) (env more : Env)
    → getenv_from found name (env ++ more) ≡ getenv_from (getenv_from found name env) name more
unfolding getenv_from
getenv_from-append found name [] more = refl
getenv_from-append found name ((n, v) ∷ env) more =
    getenv_from-append (if str_eq n name then v else found) name env more

not_empty : (z : ℤ) → IsInt64 z → str_eq (format_int z) "" ≡ false
not_empty z h = elim (Bool-cases (str_eq (format_int z) "")) [
  | inr e ↦ e
  | inl e ↦
      let unread : parse_int "" ≡ none = unfold parse_int in refl in
      let read =
        ap parse_int (sym ((str_eq_iff (format_int z) "").0 e)) ∙ parse_int-format_int z h in
      absurd (cc)
]

-- A variable that holds a written number.
env_int-format_int :
    (name : String) (z : ℤ) (env : Env)
    → IsInt64 z
    → getenv name env ≡ format_int z
    → env_int name (pos 0) env ≡ z
unfolding env_int
env_int-format_int name z env h e =
    rw (e, not_empty z h) (ap (int_or (pos 0)) (parse_int-format_int z h))

-- The limits that an envelope stands for.
abbrev pub rlimits_of : Limits → List Rlimit
rlimits_of lim =
    cpu_limit lim.cpu_ms
    ++ size_limit fsize 1024 lim.stdout_kb
    ++ size_limit stack 1048576 lim.stack_mb
    ++ size_limit open_files 1 lim.open_files
    ++ limit_of core 0 ∷ []

-- The variables that the parent sets, whatever the environment holds that it was started in.
module _ (env : Env) (f : Flags) where
  abbrev added : Env
  added =
      ("BOXRUN_STAGE2", "1")
      ∷ ("BOXRUN_CPU_MS", format_int f.cpu_ms)
      ∷ ("BOXRUN_FSIZE_KB", format_int f.fsize_kb)
      ∷ ("BOXRUN_STACK_MB", format_int f.stack_mb)
      ∷ ("BOXRUN_NOFILE", format_int f.nofile)
      ∷ ("BOXRUN_NO_ASLR", bool_str f.no_aslr)
      ∷ []

  stage2_value : getenv "BOXRUN_STAGE2" (child_env env f) ≡ "1"
  unfolding child_env getenv_from
  stage2_value = getenv_from-append "" "BOXRUN_STAGE2" env added

  cpu_value : getenv "BOXRUN_CPU_MS" (child_env env f) ≡ format_int f.cpu_ms
  unfolding child_env getenv_from
  cpu_value = getenv_from-append "" "BOXRUN_CPU_MS" env added

  fsize_value : getenv "BOXRUN_FSIZE_KB" (child_env env f) ≡ format_int f.fsize_kb
  unfolding child_env getenv_from
  fsize_value = getenv_from-append "" "BOXRUN_FSIZE_KB" env added

  stack_value : getenv "BOXRUN_STACK_MB" (child_env env f) ≡ format_int f.stack_mb
  unfolding child_env getenv_from
  stack_value = getenv_from-append "" "BOXRUN_STACK_MB" env added

  nofile_value : getenv "BOXRUN_NOFILE" (child_env env f) ≡ format_int f.nofile
  unfolding child_env getenv_from
  nofile_value = getenv_from-append "" "BOXRUN_NOFILE" env added

  aslr_value : getenv "BOXRUN_NO_ASLR" (child_env env f) ≡ bool_str f.no_aslr
  unfolding child_env getenv_from
  aslr_value = getenv_from-append "" "BOXRUN_NO_ASLR" env added

child_limits :
    (env : Env) (spec : RunSpec)
    → InRange spec.limits
    → stage2_limits (child_env env (flags_of spec)) ≡ rlimits_of spec.limits
unfolding stage2_limits
child_limits env spec h =
    let l = spec.limits in
    rw
      (
        env_int-format_int "BOXRUN_CPU_MS" l.cpu_ms (child_env env (flags_of spec)) h.cpu_int
            (cpu_value env (flags_of spec)),
        env_int-format_int "BOXRUN_FSIZE_KB" l.stdout_kb (child_env env (flags_of spec))
            h.stdout_int (fsize_value env (flags_of spec)),
        env_int-format_int "BOXRUN_STACK_MB" l.stack_mb (child_env env (flags_of spec)) h.stack_int
            (stack_value env (flags_of spec)),
        env_int-format_int "BOXRUN_NOFILE" l.open_files (child_env env (flags_of spec)) h.files_int
            (nofile_value env (flags_of spec)),
      )
      refl

all_set-true :
    (set : Rlimit → Bool) (ls : List Rlimit) → ((l : Rlimit) → set l ≡ true) → all_set set ls ≡ true
unfolding all_set
all_set-true set [] h = refl
all_set-true set (l ∷ ls) h = rw (h l) (all_set-true set ls h)

-- An environment without the variable that makes a process of boxrun the second stage.
abbrev pub IsOutside : Env → Type 0
IsOutside = All (λ v. str_eq v.0 "BOXRUN_STAGE2" ≡ false)

outside_value : (env : Env) → IsOutside env → getenv "BOXRUN_STAGE2" env ≡ ""
unfolding getenv_from
outside_value [] h = refl
outside_value ((n, v) ∷ env) h = rw h.0 (outside_value env h.1)

boxrun-stage2 :
    (spec : RunSpec) (env : Env) (set : Rlimit → Bool) (finds : String → Bool) (bin : String)
    (args : List String)
    → InRange spec.limits
    → spec.cmd ≡ bin ∷ args
    → ((l : Rlimit) → set l ≡ true)
    → finds bin ≡ true
    → stage2 set finds (child_env env (flags_of spec)) spec.cmd
      ≡ execs (rlimits_of spec.limits) spec.disable_aslr spec.cmd
unfolding stage2
boxrun-stage2 spec env set finds bin args h c a f =
    rw
      (
        c,
        all_set-true set (stage2_limits (child_env env (flags_of spec))) a,
        f,
        child_limits env spec h,
        aslr_value env (flags_of spec),
      )
      (ap (λ b. execs (rlimits_of spec.limits) b (bin ∷ args)) (is_one spec.disable_aslr))
  where
    is_one : (b : Bool) → str_eq (bool_str b) "1" ≡ b
    is_one true = refl
    is_one false = refl

-- The envelope of a run arrives at the kernel as it is: boxrun, with the arguments that `Docker.Run`
-- writes, starts a child with the command of the run, and the child, which is boxrun again, sets
-- the limits of the run before it becomes the command. For amounts of 64 bits, a container whose
-- environment does not set BOXRUN_STAGE2, whatever else it sets, a kernel that accepts the limits,
-- and a program that is found.
pub stage2-envelope :
    (spec : RunSpec) (env : Env) (set : Rlimit → Bool) (finds : String → Bool) (bin : String)
    (args : List String)
    → InRange spec.limits
    → IsOutside env
    → spec.cmd ≡ bin ∷ args
    → ((l : Rlimit) → set l ≡ true)
    → finds bin ≡ true
    → (child : Env) × (boxrun set finds env (box_args spec) ≡ starts child spec.cmd)
      × (boxrun set finds child spec.cmd
          ≡ second (execs (rlimits_of spec.limits) spec.disable_aslr spec.cmd))
unfolding boxrun
stage2-envelope spec env set finds bin args h o c a f = (
  child_env env (flags_of spec),
  rw (outside_value env o, parse_flags-box_args spec h, c) refl,
  rw (stage2_value env (flags_of spec), boxrun-stage2 spec env set finds bin args h c a f) refl,
)

-- RLIMIT_CPU covers the CPU budget, and exceeds it by less than a second; one second later the
-- program is killed. For a positive budget whose rounding up is an int64.
cpu_limit-covers :
    (ms : ℕ)
    → 0 < ms
    → ms + 999 < 2 ^ 63
    → (s : ℕ) × (cpu_limit (pos ms) ≡ record { resource = cpu; soft = s; hard = s + 1 } ∷ [])
      × (ms ≤ 1000 * s)
      × (1000 * s < ms + 1000)
unfolding cpu_limit ◌+ℤ◌ wrap64
cpu_limit-covers ms p h = ((ms + 999) / 1000, ground arith, omega arith, omega arith)
