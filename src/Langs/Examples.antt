-- ===== src/Langs/Examples.antt =====
-- Tests of internal/langs, and its theorems at concrete inputs.
use arena.Common.{
  ℤ, pos, negsuc, leb_ℤ, ◌*ℤ◌, ◌≡◌, ◌≢◌, refl, true, false, some, none, List, [], ◌∷◌, inl, inr,
  arith,
}
use arena.Core.Limits.{Limits, Multiplier, normalize, or_default}
use arena.Core.Limits.Usable.{IsUsable}
use arena.Langs.Manifest.{Manifest, validate, job_limits, job_limits-IsUsable}
use arena.Langs.Registry.{
  Entry, Registry, duplicate, get, register, load_manifest, load_file, load_entry, load_entries,
  load_fs, IsLoaded, load_fs-IsLoaded,
}

-- A multiplier that is a whole number.
abbrev pub whole : Multiplier
whole = record {
  Float = ℤ;
  one = pos 1;
  at_most_zero = λ m. leb_ℤ m (pos 0);
  scale = λ x m. x *ℤ m;
}

abbrev pub python : Manifest ℤ
python = record {
  id = "python";
  display = "Python";
  image = "arena-python";
  source_file = "main.py";
  compile = [];
  run = "python3" ∷ "main.py" ∷ [];
  time_multiplier = pos 3;
  memory_overhead_mb = pos 64;
  compile_limits = none;
  env = [];
  enabled = true;
}

abbrev small : Limits
small = record {
  cpu_ms = pos 1000;
  wall_ms = pos 0;
  mem_mb = negsuc 4;
  stdout_kb = pos 0;
  pids = pos 0;
  stack_mb = pos 0;
  open_files = pos 9;
}

job_limits-IsUsable_example :
    IsUsable (job_limits whole python small).compile × IsUsable (job_limits whole python small).run
unfolding ◌*ℤ◌ normalize or_default
job_limits-IsUsable_example =
    job_limits-IsUsable whole python small (λ l e. absurd (cc)) (omega arith) (omega arith)

abbrev yaml : Manifest ℤ → Entry ℤ
yaml m = record { is_dir = false; ext = ".yaml"; content = some (some m) }

abbrev directory : List (Entry ℤ)
directory =
    yaml (record python { time_multiplier = pos 0 })
    ∷ record (yaml python) { ext = ".md" }
    ∷ yaml (record python { id = "java"; enabled = false })
    ∷ []

abbrev loaded : Registry ℤ
loaded = ("python", record python { time_multiplier = pos 1 }) ∷ []

load_directory : load_fs whole [] directory ≡ inr loaded
unfolding load_fs load_entries load_entry load_file load_manifest register validate get
load_directory = refl

load_twice : load_fs whole [] (yaml python ∷ yaml python ∷ []) ≡ inl (duplicate "python")
unfolding load_fs load_entries load_entry load_file load_manifest register validate get
load_twice = refl

load_fs-IsLoaded_example : IsLoaded whole loaded × (loaded ≢ [])
load_fs-IsLoaded_example = load_fs-IsLoaded whole refl loaded directory load_directory
