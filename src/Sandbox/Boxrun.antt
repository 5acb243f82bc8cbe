-- ===== src/Sandbox/Boxrun.antt =====
-- cmd/boxrun/main.go: the flags, the limits that the child sets for itself, and the metrics.
-- The kernel is a parameter.
use Prim.Native.Char.{code}
use arena.Common.{
  ℕ, suc, ◌+◌, ◌-◌, ◌*◌, ◌/◌, ◌%◌, ◌^◌, ℤ, pos, negsuc, ◌+ℤ◌, wrap64, ltb, ltb_ℤ, ◌==◌, String,
  str_eq, Bool, true, false, ◌&&◌, ◌||◌, not, Option, none, some, List, [], ◌∷◌, ◌++◌,
  if◌then◌else◌,
}
use arena.Sandbox.Numbers.{format_int, parse_int}

-- The values behind the flags.
pub record Flags : Type 0 where
  pub meta_path : String
  pub cpu_ms : ℤ
  pub wall_ms : ℤ
  pub fsize_kb : ℤ
  pub stack_mb : ℤ
  pub nofile : ℤ
  pub stdin : String
  pub stdout : String
  pub stderr : String
  pub no_aslr : Bool
  pub workdir : String

abbrev pub default_flags : Flags
default_flags = record {
  meta_path = "/box/meta.json";
  cpu_ms = pos 0;
  wall_ms = pos 0;
  fsize_kb = pos 0;
  stack_mb = pos 0;
  nofile = pos 0;
  stdin = "";
  stdout = "/box/stdout";
  stderr = "/box/stderr";
  no_aslr = true;
  workdir = "/box";
}

abbrev pub with_int : Option ℤ → (ℤ → Flags) → Option Flags
with_int none set = none
with_int (some n) set = some (set n)

-- A flag that takes its value from the next argument.
unfoldable pub set_flag : Flags → String → String → Option Flags
set_flag f name v =
    if str_eq name "-meta"
    then some (record f { meta_path = v })
    else if str_eq name "-cpu-ms"
    then with_int (parse_int v) (λ n. record f { cpu_ms = n })
    else if str_eq name "-wall-ms"
    then with_int (parse_int v) (λ n. record f { wall_ms = n })
    else if str_eq name "-fsize-kb"
    then with_int (parse_int v) (λ n. record f { fsize_kb = n })
    else if str_eq name "-stack-mb"
    then with_int (parse_int v) (λ n. record f { stack_mb = n })
    else if str_eq name "-nofile"
    then with_int (parse_int v) (λ n. record f { nofile = n })
    else if str_eq name "-stdin"
    then some (record f { stdin = v })
    else if str_eq name "-stdout"
    then some (record f { stdout = v })
    else if str_eq name "-stderr"
    then some (record f { stderr = v })
    else if str_eq name "-workdir"
    then some (record f { workdir = v })
    else none

-- At least two characters, of which the first is a minus.
abbrev pub is_flag : String → Bool
is_flag String.[] = false
is_flag (String.◌∷◌ c String.[]) = false
is_flag (String.◌∷◌ c (String.◌∷◌ d s)) = code c == 45

abbrev pub no_aslr_flag : String → Option Bool
no_aslr_flag a =
    if str_eq a "-no-aslr" || str_eq a "-no-aslr=true"
    then some true
    else if str_eq a "-no-aslr=false"
    then some false
    else none

abbrev pub then_parse :
    Option Flags → (Flags → Option (Flags × List String)) → Option (Flags × List String)
then_parse none parse = none
then_parse (some f) parse = parse f

-- `flag.Parse`: the flags and the command; `none` where it ends the program. Of the forms that it
-- reads, those that internal/adapters/sandbox writes: -name value, with numbers in decimal digits,
-- and -no-aslr=value.
unfoldable pub parse_flags : Flags → List String → Option (Flags × List String)
unfolding set_flag
parse_flags f [] = some (f, [])
parse_flags f (a ∷ []) =
    if str_eq a "--"
    then some (f, [])
    else if not (is_flag a)
    then some (f, a ∷ [])
    else elim (no_aslr_flag a) [ none ↦ none | some b ↦ some (record f { no_aslr = b }, []) ]
parse_flags f (a ∷ v ∷ rest) =
    if str_eq a "--"
    then some (f, v ∷ rest)
    else if not (is_flag a)
    then some (f, a ∷ v ∷ rest)
    else elim (no_aslr_flag a) [
      | some b ↦ parse_flags (record f { no_aslr = b }) (v ∷ rest)
      | none ↦ then_parse (set_flag f a v) (λ f'. parse_flags f' rest)
    ]

abbrev pub Env : Type 0
Env = List (String × String)

abbrev pub bool_str : Bool → String
bool_str true = "1"
bool_str false = "0"

-- The child's environment; of two values of one name the later one counts.
unfoldable pub child_env : Env → Flags → Env
unfolding format_int
child_env env f =
    env
    ++ ("BOXRUN_STAGE2", "1")
      ∷ ("BOXRUN_CPU_MS", format_int f.cpu_ms)
      ∷ ("BOXRUN_FSIZE_KB", format_int f.fsize_kb)
      ∷ ("BOXRUN_STACK_MB", format_int f.stack_mb)
      ∷ ("BOXRUN_NOFILE", format_int f.nofile)
      ∷ ("BOXRUN_NO_ASLR", bool_str f.no_aslr)
      ∷ []

-- `os.Getenv`, from what was found so far, in an environment of which exec keeps the last value of
-- each name.
unfoldable pub getenv_from : String → String → Env → String
getenv_from found name [] = found
getenv_from found name ((n, v) ∷ env) = getenv_from (if str_eq n name then v else found) name env

abbrev pub getenv : String → Env → String
getenv name env = getenv_from "" name env

abbrev pub int_or : ℤ → Option ℤ → ℤ
int_or d none = d
int_or d (some n) = n

unfoldable pub env_int : String → ℤ → Env → ℤ
unfolding getenv_from parse_int
env_int name d env =
    if str_eq (getenv name env) "" then d else int_or d (parse_int (getenv name env))

pub data Resource : Type 0 where
  cpu : Resource
  fsize : Resource
  stack : Resource
  open_files : Resource
  core : Resource

-- `setrlimit`, with uint64 values.
pub record Rlimit : Type 0 where
  pub resource : Resource
  pub soft : ℕ
  pub hard : ℕ

-- uint64 of an int64 quotient by 1,000, which Go cuts towards 0.
abbrev pub seconds_of : ℤ → ℕ
seconds_of (pos n) = n / 1000
seconds_of (negsuc n) = (2 ^ 64 - suc n / 1000) % 2 ^ 64

abbrev pub at_least_1 : ℕ → ℕ
at_least_1 n = if ltb n 1 then 1 else n

unfoldable pub cpu_limit : ℤ → List Rlimit
cpu_limit ms =
    if ltb_ℤ (pos 0) ms
    then record {
      resource = cpu;
      soft = at_least_1 (seconds_of (wrap64 (ms +ℤ pos 999)));
      hard = (at_least_1 (seconds_of (wrap64 (ms +ℤ pos 999))) + 1) % 2 ^ 64;
    }
      ∷ []
    else []

-- A limit whose soft and hard values are the same.
abbrev pub limit_of : Resource → ℕ → Rlimit
limit_of r n = record { resource = r; soft = n; hard = n }

-- A positive amount in units of so many bytes.
unfoldable pub size_limit : Resource → ℕ → ℤ → List Rlimit
size_limit r unit (pos n) = if ltb 0 n then limit_of r (n * unit % 2 ^ 64) ∷ [] else []
size_limit r unit (negsuc n) = []

unfoldable pub stage2_limits : Env → List Rlimit
unfolding cpu_limit size_limit env_int
stage2_limits env =
    cpu_limit (env_int "BOXRUN_CPU_MS" (pos 0) env)
    ++ size_limit fsize 1024 (env_int "BOXRUN_FSIZE_KB" (pos 0) env)
    ++ size_limit stack 1048576 (env_int "BOXRUN_STACK_MB" (pos 0) env)
    ++ size_limit open_files 1 (env_int "BOXRUN_NOFILE" (pos 0) env)
    ++ limit_of core 0 ∷ []

-- How stage 2 ends: with an exit code, or as the target, under limits, with ASLR off or on.
pub data Stage2 : Type 0 where
  exits : ℕ → Stage2
  execs : List Rlimit → Bool → List String → Stage2

unfoldable pub all_set : (Rlimit → Bool) → List Rlimit → Bool
all_set set [] = true
all_set set (l ∷ ls) = set l && all_set set ls

-- `stage2`, on a kernel that accepts some limits and finds some programs.
unfoldable pub stage2 : (Rlimit → Bool) → (String → Bool) → Env → List String → Stage2
unfolding stage2_limits all_set
stage2 set finds env [] = exits 126
stage2 set finds env (bin ∷ args) =
    if not (all_set set (stage2_limits env))
    then exits 126
    else if not (finds bin)
    then exits 127
    else execs (stage2_limits env) (str_eq (getenv "BOXRUN_NO_ASLR" env) "1") (bin ∷ args)

-- What becomes of a process of boxrun: stage 2, a child with an environment and a command, or the
-- end, without a command.
pub data Stage : Type 0 where
  second : Stage2 → Stage
  starts : Env → List String → Stage
  no_command : Stage

abbrev pub parent_of : Env → Option (Flags × List String) → Stage
parent_of env none = no_command
parent_of env (some (f, [])) = no_command
parent_of env (some (f, bin ∷ args)) = starts (child_env env f) (bin ∷ args)

-- `main`, with the environment and the arguments of the process: stage 2 or `parent`, on files that
-- can be opened.
unfoldable pub boxrun : (Rlimit → Bool) → (String → Bool) → Env → List String → Stage
unfolding stage2 parse_flags child_env getenv_from
boxrun set finds env args =
    if str_eq (getenv "BOXRUN_STAGE2" env) "1"
    then second (stage2 set finds env args)
    else parent_of env (parse_flags default_flags args)
