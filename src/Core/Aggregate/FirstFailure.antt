-- ===== src/Core/Aggregate/FirstFailure.antt =====
-- `Aggregate` reports the first failing test and the greatest costs.
use arena.Common.{
  ℤ, pos, negsuc, ◌≤ℤ◌, true, false, ◌≡◌, ◌≢◌, refl, sym, ap, ◌∙◌, ◌||◌, Bool-cases, inl, inr, List,
  [], ◌∷◌, Option, none, some, if◌then◌else◌, arith, All, eqb_ℤ_iff,
}
use arena.Core.Verdict.{Verdict, ac, is_accepted}
use arena.Core.Job.{TestResult}
use arena.Core.Aggregate.{Summary, keep_max, count_test, aggregate_from, no_tests, aggregate}

-- What a participant is told: the first test that ran and did not pass.
pub first_failure : List TestResult → Option TestResult
first_failure [] = none
first_failure (t ∷ ts) =
    if t.skipped
    then first_failure ts
    else if is_accepted t.verdict
    then first_failure ts
    else some t

-- The greatest value of a measure over the tests that ran, and at least 0.
pub peak : (TestResult → ℤ) → List TestResult → ℤ
peak f [] = pos 0
peak f (t ∷ ts) = if t.skipped then peak f ts else keep_max (f t) (peak f ts)

-- The index of a test is not the value that stands for "no failure yet".
abbrev pub IsIndexed : List TestResult → Type 0
IsIndexed = All (λ t. t.index ≢ negsuc 0)

keep_max_zero : (x : ℤ) → pos 0 ≤ℤ x → keep_max (pos 0) x ≡ x
keep_max_zero x h = ground arith

keep_max_step : (x m p : ℤ) → keep_max p (keep_max x m) ≡ keep_max (keep_max x p) m
keep_max_step x m p = ground arith

keep_max_nonneg : (x m : ℤ) → pos 0 ≤ℤ m → pos 0 ≤ℤ keep_max x m
keep_max_nonneg x m h = ground arith

peak_nonneg : (f : TestResult → ℤ) (ts : List TestResult) → pos 0 ≤ℤ peak f ts
unfolding peak
peak_nonneg f [] = omega arith
peak_nonneg f (t ∷ ts) = ground (arith, peak_nonneg f ts)

keep_max_settled : (p : ℤ) → pos 0 ≤ℤ p → keep_max p (pos 0) ≡ p
keep_max_settled p h = ground arith

max_step : (TestResult → ℤ) → ℤ → TestResult → ℤ
max_step f m t = if t.skipped then m else keep_max (f t) m

peak_from : (TestResult → ℤ) → ℤ → List TestResult → ℤ
peak_from f m [] = m
peak_from f m (t ∷ ts) = peak_from f (max_step f m t) ts

max_step_nonneg :
    (f : TestResult → ℤ) (m : ℤ) (t : TestResult) → pos 0 ≤ℤ m → pos 0 ≤ℤ max_step f m t
unfolding max_step
max_step_nonneg f m t h = ground arith

peak_from-eq-peak :
    (f : TestResult → ℤ) (m : ℤ) (ts : List TestResult)
    → pos 0 ≤ℤ m
    → peak_from f m ts ≡ keep_max (peak f ts) m
unfolding peak_from peak
peak_from-eq-peak f m [] h = sym (keep_max_zero m h)
peak_from-eq-peak f m (t ∷ ts) h =
    peak_from-eq-peak f (max_step f m t) ts (max_step_nonneg f m t h) ∙ swapped (peak f ts)
  where
    swapped :
        (p : ℤ)
        → keep_max p (max_step f m t) ≡ keep_max (if t.skipped then p else keep_max (f t) p) m
    swapped p = unfold max_step in ground (arith, keep_max_step (f t) m p)

stepped :
    (s : Summary) (t : TestResult)
    → ((count_test s t).cpu_ms ≡ max_step (λ r. r.cpu_ms) s.cpu_ms t)
      × ((count_test s t).wall_ms ≡ max_step (λ r. r.wall_ms) s.wall_ms t)
      × ((count_test s t).mem_kb ≡ max_step (λ r. r.mem_kb) s.mem_kb t)
unfolding count_test max_step
stepped s t = (ground arith, ground arith, ground arith)

peaks :
    (s : Summary) (ts : List TestResult)
    → ((aggregate_from s ts).cpu_ms ≡ peak_from (λ t. t.cpu_ms) s.cpu_ms ts)
      × ((aggregate_from s ts).wall_ms ≡ peak_from (λ t. t.wall_ms) s.wall_ms ts)
      × ((aggregate_from s ts).mem_kb ≡ peak_from (λ t. t.mem_kb) s.mem_kb ts)
unfolding aggregate_from peak_from
peaks s [] = (refl, refl, refl)
peaks s (t ∷ ts) =
    let (c, w, m) = peaks (count_test s t) ts in
    (
      c ∙ ap (λ x. peak_from (λ r. r.cpu_ms) x ts) (stepped s t).0,
      w ∙ ap (λ x. peak_from (λ r. r.wall_ms) x ts) (stepped s t).1,
      m ∙ ap (λ x. peak_from (λ r. r.mem_kb) x ts) (stepped s t).2,
    )

kept_step :
    (s : Summary) (t : TestResult)
    → s.failed_test ≢ negsuc 0
    → ((count_test s t).verdict ≡ s.verdict) × ((count_test s t).failed_test ≡ s.failed_test)
unfolding count_test
kept_step s t h = (
  ground (arith, eqb_ℤ_iff s.failed_test (negsuc 0)),
  ground (arith, eqb_ℤ_iff s.failed_test (negsuc 0)),
)

-- Once a failure is recorded, later tests do not change it.
failure_kept :
    (s : Summary) (ts : List TestResult)
    → s.failed_test ≢ negsuc 0
    → ((aggregate_from s ts).verdict ≡ s.verdict)
      × ((aggregate_from s ts).failed_test ≡ s.failed_test)
unfolding aggregate_from
failure_kept s [] h = (refl, refl)
failure_kept s (t ∷ ts) h =
    let (v, f) = kept_step s t h in
    let (v', f') = failure_kept (count_test s t) ts (λ e. h (sym f ∙ e)) in (v' ∙ v, f' ∙ f)

abbrev pub verdict_of : Verdict → Option TestResult → Verdict
verdict_of v none = v
verdict_of v (some t) = t.verdict

abbrev pub index_of : Option TestResult → ℤ
index_of none = negsuc 0
index_of (some t) = t.index

pass_step :
    (s : Summary) (t : TestResult)
    → (t.skipped || is_accepted t.verdict) ≡ true
    → ((count_test s t).verdict ≡ s.verdict) × ((count_test s t).failed_test ≡ s.failed_test)
unfolding count_test
pass_step s t h = (ground arith, ground arith)

fail_step :
    (s : Summary) (t : TestResult)
    → s.failed_test ≡ negsuc 0
    → (t.skipped || is_accepted t.verdict) ≡ false
    → ((count_test s t).verdict ≡ t.verdict) × ((count_test s t).failed_test ≡ t.index)
unfolding count_test
fail_step s t e h = (ground arith, ground arith)

failure_found :
    (s : Summary) (ts : List TestResult)
    → IsIndexed ts
    → s.failed_test ≡ negsuc 0
    → ((aggregate_from s ts).verdict ≡ verdict_of s.verdict (first_failure ts))
      × ((aggregate_from s ts).failed_test ≡ index_of (first_failure ts))
unfolding aggregate_from first_failure
failure_found s [] ix h = (refl, h)
failure_found s (t ∷ ts) ix h = elim (Bool-cases (t.skipped || is_accepted t.verdict)) [
  | inl passed ↦
      let (v, f) = failure_found (count_test s t) ts ix.1 ((pass_step s t passed).1 ∙ h) in
      ground (arith, v, f, pass_step s t passed)
  | inr failing ↦
      let (v, f) = fail_step s t h failing in
      let (v', f') = failure_kept (count_test s t) ts (λ e. ix.0 (sym f ∙ e)) in
      ground (arith, v, f, v', f')
]

-- When no test has index -1, the verdict and the failed test are those of the first test in the
-- list that ran and did not pass (AC and -1 if there is none), and the three costs are the
-- greatest over the tests that ran, at least 0.
pub aggregate-first_failure :
    (ts : List TestResult)
    → IsIndexed ts
    → aggregate ts ≡ record {
      verdict = verdict_of ac (first_failure ts);
      cpu_ms = peak (λ t. t.cpu_ms) ts;
      wall_ms = peak (λ t. t.wall_ms) ts;
      mem_kb = peak (λ t. t.mem_kb) ts;
      failed_test = index_of (first_failure ts);
    }
unfolding aggregate
aggregate-first_failure ts ix =
    let (v, f) = failure_found no_tests ts ix refl in
    let (c, w, m) = peaks no_tests ts in
    ground (arith, v, f, c, w, m, top (λ t. t.cpu_ms), top (λ t. t.wall_ms), top (λ t. t.mem_kb))
  where
    top : (g : TestResult → ℤ) → peak_from g (pos 0) ts ≡ peak g ts
    top g =
        peak_from-eq-peak g (pos 0) ts (omega arith)
        ∙ keep_max_settled (peak g ts) (peak_nonneg g ts)
