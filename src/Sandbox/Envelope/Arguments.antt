-- ===== src/Sandbox/Envelope/Arguments.antt =====
-- The arguments of boxrun, which it reads as the sandbox wrote them.
use Prim.Native.String.{◌++◌ as str_append}
use arena.Common.{
  ℤ, String, str_eq, str_eq_iff, Bool, true, false, ◌≡◌, refl, ap, sym, ◌∙◌, Option, some, List, [],
  ◌∷◌, ◌++◌, IsInt64, if◌then◌else◌, arith,
}
use arena.Core.Limits.{Limits}
use arena.Sandbox.Numbers.{format_int, parse_int, parse_int-format_int}
use arena.Sandbox.Boxrun.{Flags, default_flags, set_flag, with_int, then_parse, parse_flags}
use arena.Sandbox.Docker.{RunSpec, inner_wall, bool_text, box_args}

parse_flags-command : (f : Flags) (cmd : List String) → parse_flags f ("--" ∷ cmd) ≡ some (f, cmd)
unfolding parse_flags
parse_flags-command f [] = refl
parse_flags-command f (c ∷ cmd) = refl

-- What stands behind the sized flags.
abbrev last_args : Bool → Bool → String → List String → List String
last_args aslr no_stdin path cmd =
    str_append "-no-aslr=" (bool_text aslr)
    ∷ ((if no_stdin then [] else "-stdin" ∷ path ∷ []) ++ "--" ∷ cmd)

parse_flags-last :
    (f : Flags) (aslr no_stdin : Bool) (path : String) (cmd : List String)
    → parse_flags f (last_args aslr no_stdin path cmd)
      ≡ some (record f { no_aslr = aslr; stdin = if no_stdin then f.stdin else path }, cmd)
unfolding parse_flags set_flag
parse_flags-last f true true path [] = refl
parse_flags-last f true true path (c ∷ cmd) = refl
parse_flags-last f true false path [] = refl
parse_flags-last f true false path (c ∷ cmd) = refl
parse_flags-last f false true path [] = refl
parse_flags-last f false true path (c ∷ cmd) = refl
parse_flags-last f false false path [] = refl
parse_flags-last f false false path (c ∷ cmd) = refl

-- The values that the sandbox means to pass.
abbrev pub flags_of : RunSpec → Flags
flags_of spec = record {
  meta_path = "/box/meta.json";
  cpu_ms = spec.limits.cpu_ms;
  wall_ms = inner_wall spec.limits;
  fsize_kb = spec.limits.stdout_kb;
  stack_mb = spec.limits.stack_mb;
  nofile = spec.limits.open_files;
  stdin = spec.stdin_path;
  stdout = "/box/stdout";
  stderr = "/box/stderr";
  no_aslr = spec.disable_aslr;
  workdir = "/box";
}

abbrev parsed : Flags → List String → Option (Flags × List String)
parsed f cmd = some (f, cmd)

-- All amounts are values of an int64.
pub record InRange (lim : Limits) : Type 0 where
  pub cpu_int : IsInt64 lim.cpu_ms
  pub wall_int : IsInt64 lim.wall_ms
  pub stdout_int : IsInt64 lim.stdout_kb
  pub stack_int : IsInt64 lim.stack_mb
  pub files_int : IsInt64 lim.open_files

inner_wall-IsInt64 : (lim : Limits) → IsInt64 lim.wall_ms → IsInt64 (inner_wall lim)
inner_wall-IsInt64 lim h = ground arith

-- One flag and its value.
module _ (f : Flags) (rest : List String) where
  sized :
      (set : ℤ → Flags) (z : ℤ)
      → IsInt64 z
      → then_parse (with_int (parse_int (format_int z)) set) (λ g. parse_flags g rest)
        ≡ parse_flags (set z) rest
  sized set z h =
      ap (λ o. then_parse (with_int o set) (λ g. parse_flags g rest)) (parse_int-format_int z h)

  cpu_arg :
      (z : ℤ)
      → IsInt64 z
      → parse_flags f ("-cpu-ms" ∷ format_int z ∷ rest) ≡ parse_flags (record f { cpu_ms = z }) rest
  unfolding parse_flags set_flag
  cpu_arg z h = sized (λ n. record f { cpu_ms = n }) z h

  wall_arg :
      (z : ℤ)
      → IsInt64 z
      → parse_flags f ("-wall-ms" ∷ format_int z ∷ rest)
        ≡ parse_flags (record f { wall_ms = z }) rest
  unfolding parse_flags set_flag
  wall_arg z h = sized (λ n. record f { wall_ms = n }) z h

  fsize_arg :
      (z : ℤ)
      → IsInt64 z
      → parse_flags f ("-fsize-kb" ∷ format_int z ∷ rest)
        ≡ parse_flags (record f { fsize_kb = z }) rest
  unfolding parse_flags set_flag
  fsize_arg z h = sized (λ n. record f { fsize_kb = n }) z h

  stack_arg :
      (z : ℤ)
      → IsInt64 z
      → parse_flags f ("-stack-mb" ∷ format_int z ∷ rest)
        ≡ parse_flags (record f { stack_mb = z }) rest
  unfolding parse_flags set_flag
  stack_arg z h = sized (λ n. record f { stack_mb = n }) z h

  nofile_arg :
      (z : ℤ)
      → IsInt64 z
      → parse_flags f ("-nofile" ∷ format_int z ∷ rest) ≡ parse_flags (record f { nofile = z }) rest
  unfolding parse_flags set_flag
  nofile_arg z h = sized (λ n. record f { nofile = n }) z h

  meta_arg :
      (v : String)
      → parse_flags f ("-meta" ∷ v ∷ rest) ≡ parse_flags (record f { meta_path = v }) rest
  unfolding parse_flags set_flag
  meta_arg v = refl

  stdout_arg :
      (v : String)
      → parse_flags f ("-stdout" ∷ v ∷ rest) ≡ parse_flags (record f { stdout = v }) rest
  unfolding parse_flags set_flag
  stdout_arg v = refl

  stderr_arg :
      (v : String)
      → parse_flags f ("-stderr" ∷ v ∷ rest) ≡ parse_flags (record f { stderr = v }) rest
  unfolding parse_flags set_flag
  stderr_arg v = refl

  workdir_arg :
      (v : String)
      → parse_flags f ("-workdir" ∷ v ∷ rest) ≡ parse_flags (record f { workdir = v }) rest
  unfolding parse_flags set_flag
  workdir_arg v = refl

pub parse_flags-box_args :
    (spec : RunSpec)
    → InRange spec.limits
    → parse_flags default_flags (box_args spec) ≡ some (flags_of spec, spec.cmd)
unfolding box_args
parse_flags-box_args spec h =
    let l = spec.limits in
    let wall = inner_wall l in
    let last = last_args spec.disable_aslr (str_eq spec.stdin_path "") spec.stdin_path spec.cmd in
    let a9 = "-workdir" ∷ "/box" ∷ last in
    let a8 = "-stderr" ∷ "/box/stderr" ∷ a9 in
    let a7 = "-stdout" ∷ "/box/stdout" ∷ a8 in
    let a6 = "-nofile" ∷ format_int l.open_files ∷ a7 in
    let a5 = "-stack-mb" ∷ format_int l.stack_mb ∷ a6 in
    let a4 = "-fsize-kb" ∷ format_int l.stdout_kb ∷ a5 in
    let a3 = "-wall-ms" ∷ format_int wall ∷ a4 in
    let a2 = "-cpu-ms" ∷ format_int l.cpu_ms ∷ a3 in
    let f2 = record default_flags { meta_path = "/box/meta.json" } in
    let f3 = record f2 { cpu_ms = l.cpu_ms } in
    let f4 = record f3 { wall_ms = wall } in
    let f5 = record f4 { fsize_kb = l.stdout_kb } in
    let f6 = record f5 { stack_mb = l.stack_mb } in
    let f7 = record f6 { nofile = l.open_files } in
    meta_arg default_flags a2 "/box/meta.json"
    ∙ cpu_arg f2 a3 l.cpu_ms h.cpu_int
    ∙ wall_arg f3 a4 wall (inner_wall-IsInt64 l h.wall_int)
    ∙ fsize_arg f4 a5 l.stdout_kb h.stdout_int
    ∙ stack_arg f5 a6 l.stack_mb h.stack_int
    ∙ nofile_arg f6 a7 l.open_files h.files_int
    ∙ stdout_arg f7 a8 "/box/stdout"
    ∙ stderr_arg f7 a9 "/box/stderr"
    ∙ workdir_arg f7 last "/box"
    ∙ parse_flags-last f7 spec.disable_aslr (str_eq spec.stdin_path "") spec.stdin_path spec.cmd
    ∙ no_stdin_path (str_eq spec.stdin_path "") (str_eq_iff spec.stdin_path "").0
  where
    no_stdin_path :
        (b : Bool)
        → (b ≡ true → spec.stdin_path ≡ "")
        → parsed (record (flags_of spec) { stdin = if b then "" else spec.stdin_path }) spec.cmd
          ≡ parsed (flags_of spec) spec.cmd
    no_stdin_path true e =
        ap (λ p. parsed (record (flags_of spec) { stdin = p }) spec.cmd) (sym (e refl))
    no_stdin_path false e = refl
