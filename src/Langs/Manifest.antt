-- ===== src/Langs/Manifest.antt =====
-- internal/langs/manifest.go. The float64 multiplier is that of `Multiplier`.
use arena.Common.{
  ℤ, String, str_eq, Bool, Option, none, some, List, [], ◌∷◌, ◌≤ℤ◌, ◌≡◌, true, false, not, ◌⊎◌, inl,
  inr, Option-cases, if◌then◌else◌,
}
use arena.Core.Limits.{Limits, LimitSet, default_compile_limits, normalize, Multiplier, scale}
use arena.Core.Limits.Usable.{
  IsUsable, cpu_ceiling, normalize-IsUsable, scale-IsUsable, defaults-IsUsable,
}

pub record Manifest (F : Type 0) : Type 0 where
  pub id : String
  pub display : String
  pub image : String
  pub source_file : String
  pub compile : List String
  pub run : List String
  pub time_multiplier : F
  pub memory_overhead_mb : ℤ
  pub compile_limits : Option Limits
  pub env : List String
  pub enabled : Bool

pub data ManifestError : Type 0 where
  no_id no_image no_source_file no_run : ManifestError

abbrev pub is_empty : List String → Bool
is_empty [] = true
is_empty (x ∷ xs) = false

module _ (fl : Multiplier) where
  open fl use {Float, one, at_most_zero}

  -- `Validate`: the first thing that is missing, or the manifest with its multiplier set.
  unfoldable pub validate : Manifest Float → ManifestError ⊎ Manifest Float
  validate m =
      if str_eq m.id ""
      then inl no_id
      else if str_eq m.image ""
      then inl no_image
      else if str_eq m.source_file ""
      then inl no_source_file
      else if is_empty m.run
      then inl no_run
      else inr (if at_most_zero m.time_multiplier then record m { time_multiplier = one } else m)

  unfoldable pub needs_compile : Manifest Float → Bool
  needs_compile m = not (is_empty m.compile)

  unfoldable pub effective_compile_limits : Manifest Float → Limits
  effective_compile_limits m = elim m.compile_limits [
    | none ↦ default_compile_limits
    | some l ↦ normalize l
  ]

  unfoldable pub scale_run_limits : Manifest Float → Limits → Limits
  scale_run_limits m problem = scale fl (normalize problem) m.time_multiplier m.memory_overhead_mb

  -- The two envelopes of a job.
  unfoldable pub job_limits : Manifest Float → Limits → LimitSet
  unfolding effective_compile_limits scale_run_limits
  job_limits m problem = record {
    compile = effective_compile_limits m;
    run = scale_run_limits m problem;
  }

  effective_compile-IsUsable :
      (m : Manifest Float)
      → ((l : Limits) → m.compile_limits ≡ some l → l.cpu_ms ≤ℤ cpu_ceiling)
      → IsUsable (effective_compile_limits m)
  unfolding effective_compile_limits
  effective_compile-IsUsable m h = elim (Option-cases m.compile_limits) [
    | inl e ↦ rw e defaults-IsUsable.0
    | inr (l, e) ↦ rw e (normalize-IsUsable l (h l e)).0
  ]

  -- Both envelopes of every job are usable, whatever the problem and the manifest leave out or set
  -- to nonsense, as long as no CPU budget passes 2^63 / 3, before or after scaling.
  pub job_limits-IsUsable :
      (m : Manifest Float) (problem : Limits)
      → ((l : Limits) → m.compile_limits ≡ some l → l.cpu_ms ≤ℤ cpu_ceiling)
      → fl.scale (normalize problem).cpu_ms m.time_multiplier ≤ℤ cpu_ceiling
      → fl.scale (normalize problem).cpu_ms one ≤ℤ cpu_ceiling
      → IsUsable (job_limits m problem).compile × IsUsable (job_limits m problem).run
  unfolding job_limits
  job_limits-IsUsable m problem c h k = (
    effective_compile-IsUsable m c,
    scale-IsUsable fl (normalize problem) m.time_multiplier m.memory_overhead_mb h k,
  )
