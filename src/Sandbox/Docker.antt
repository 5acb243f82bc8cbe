-- ===== src/Sandbox/Docker.antt =====
-- internal/adapters/sandbox/docker.go and process.go: the commands that are run, and what is made of
-- the metrics. Docker, the clock and JSON are parameters.
use Prim.Native.String.{◌++◌ as str_append}
use arena.Common.{
  ℤ, pos, ◌+ℤ◌, ◌*ℤ◌, wrap64, leb_ℤ, eqb_ℤ, String, str_eq, Bool, true, false, ◌&&◌, not, ◌⊎◌, inl,
  inr, Option, none, some, List, [], ◌∷◌, ◌++◌, if◌then◌else◌,
}
use arena.Core.Limits.{Limits}
use arena.Core.Job.{ExecOutcome}
use arena.Sandbox.Numbers.{format_int}
use arena.Sandbox.Meta.{Meta}

-- `ports.RunSpec`, as this code reads it.
pub record RunSpec : Type 0 where
  pub name : String
  pub image : String
  pub cmd : List String
  pub stdin_path : String
  pub limits : Limits
  pub box_dir : String
  pub env : List String
  pub cpu_set : String
  pub network : Bool
  pub disable_aslr : Bool

abbrev pub inner_wall : Limits → ℤ
inner_wall lim = if leb_ℤ lim.wall_ms (pos 0) then pos 10000 else lim.wall_ms

-- `outerDeadline`, in nanoseconds.
unfoldable pub outer_deadline : RunSpec → ℤ
outer_deadline spec = wrap64 (wrap64 (inner_wall spec.limits *ℤ pos 1000000) +ℤ pos 15000000000)

abbrev pub box_stdin : RunSpec → List String
box_stdin spec = if str_eq spec.stdin_path "" then [] else "-stdin" ∷ spec.stdin_path ∷ []

abbrev pub bool_text : Bool → String
bool_text true = "true"
bool_text false = "false"

-- The arguments of boxrun, behind its path.
unfoldable pub box_args : RunSpec → List String
unfolding format_int
box_args spec =
    "-meta"
    ∷ "/box/meta.json"
    ∷ "-cpu-ms"
    ∷ format_int spec.limits.cpu_ms
    ∷ "-wall-ms"
    ∷ format_int (inner_wall spec.limits)
    ∷ "-fsize-kb"
    ∷ format_int spec.limits.stdout_kb
    ∷ "-stack-mb"
    ∷ format_int spec.limits.stack_mb
    ∷ "-nofile"
    ∷ format_int spec.limits.open_files
    ∷ "-stdout"
    ∷ "/box/stdout"
    ∷ "-stderr"
    ∷ "/box/stderr"
    ∷ "-workdir"
    ∷ "/box"
    ∷ str_append "-no-aslr=" (bool_text spec.disable_aslr)
    ∷ (box_stdin spec ++ "--" ∷ spec.cmd)

abbrev pub flag_if : Bool → List String → List String
flag_if b args = if b then args else []

unfoldable pub env_args : List String → List String
env_args [] = []
env_args (e ∷ env) = "-e" ∷ e ∷ env_args env

-- The options of `docker run`, in front of the image.
unfoldable pub docker_options : RunSpec → String → String → List String
unfolding env_args
docker_options spec name runner =
    "run"
    ∷ "--name"
    ∷ name
    ∷ "--label"
    ∷ str_append "arena.runner=" runner
    ∷ "--workdir"
    ∷ "/box"
    ∷ "-v"
    ∷ str_append spec.box_dir ":/box:rw"
    ∷ "--read-only"
    ∷ "--cap-drop=ALL"
    ∷ "--security-opt=no-new-privileges"
    ∷ "--user"
    ∷ "65534:65534"
    ∷ "--memory"
    ∷ str_append (format_int spec.limits.mem_mb) "m"
    ∷ "--memory-swap"
    ∷ str_append (format_int spec.limits.mem_mb) "m"
    ∷ "--memory-swappiness"
    ∷ "0"
    ∷ "--pids-limit"
    ∷ format_int spec.limits.pids
    ∷ "--ulimit"
    ∷ "core=0"
    ∷ "--cpus"
    ∷ "1.0"
    ∷ (flag_if (not (str_eq spec.cpu_set "")) ("--cpuset-cpus" ∷ spec.cpu_set ∷ [])
        ++ flag_if (not spec.network) ("--network" ∷ "none" ∷ [])
        ++ env_args spec.env)

unfoldable pub docker_args : RunSpec → String → String → List String
unfolding docker_options box_args
docker_args spec name runner =
    docker_options spec name runner ++ spec.image ∷ "/usr/local/bin/boxrun" ∷ box_args spec

pub data SandboxError : Type 0 where
  docker_failed : SandboxError
  no_metrics : SandboxError

-- What is left when `docker run` has ended: whether it failed, what `inspect` found (OOM, and the
-- exit code), and the metrics file if it can be read.
pub record Ended : Type 0 where
  pub run_failed : Bool
  pub oom : Bool
  pub inspect_exit : ℤ
  pub meta : Option Meta

unfoldable pub outcome_of : Bool → ℤ → Meta → ExecOutcome
outcome_of oom inspect_exit m = record {
  exit_code = m.exit_code;
  signal = m.signal;
  cpu_ms = m.cpu_ms;
  wall_ms = m.wall_ms;
  max_rss_kb = m.max_rss_kb;
  oom_killed =
      if eqb_ℤ inspect_exit (pos 137) && not oom && eqb_ℤ m.max_rss_kb (pos 0) then true else oom;
  wall_kill = m.wall_kill;
  fsize_kill = m.fsize_kill;
  stdout_len = m.stdout_len;
  instructions = pos 0;
  stderr = "";
}

-- `Docker.Run` behind the container.
unfoldable pub docker_outcome : Ended → SandboxError ⊎ ExecOutcome
unfolding outcome_of
docker_outcome e = elim (e.meta) [
  | none ↦ inl (if e.run_failed then docker_failed else no_metrics)
  | some m ↦ inr (outcome_of e.oom e.inspect_exit m)
]

-- `Process.Run`: the arguments of boxrun, with the paths of the box, and the outcome.
unfoldable pub process_args : (String → String → String) → (String → String) → RunSpec → List String
unfolding format_int
process_args join base spec =
    "-meta"
    ∷ join spec.box_dir "meta.json"
    ∷ "-cpu-ms"
    ∷ format_int spec.limits.cpu_ms
    ∷ "-wall-ms"
    ∷ format_int spec.limits.wall_ms
    ∷ "-fsize-kb"
    ∷ format_int spec.limits.stdout_kb
    ∷ "-stack-mb"
    ∷ format_int spec.limits.stack_mb
    ∷ "-stdout"
    ∷ join spec.box_dir "stdout"
    ∷ "-stderr"
    ∷ join spec.box_dir "stderr"
    ∷ "-workdir"
    ∷ spec.box_dir
    ∷ (flag_if (not (str_eq spec.stdin_path ""))
          ("-stdin" ∷ join spec.box_dir (base spec.stdin_path) ∷ [])
        ++ "--" ∷ spec.cmd)

unfoldable pub process_outcome : Option Meta → Option ExecOutcome
unfolding outcome_of
process_outcome none = none
process_outcome (some m) = some (outcome_of false (pos 0) m)
