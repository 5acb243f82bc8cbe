-- ===== src/Judge/Test.antt =====
-- One test of internal/judge/judge.go: the test data, the run and its verdict. The sandbox, the blob
-- store, the checkers and the context's cancellation are parameters; a container's name is left out.
use arena.Common.{
  ℕ, ℤ, pos, ltb_ℤ, eqb_ℤ, String, str_eq, Bool, true, false, ◌&&◌, not, Option, none, some, List,
  [], ◌∷◌, if◌then◌else◌, ◌⊎◌, inl, inr,
}
use arena.Core.Limits.{Limits, Multiplier}
use arena.Core.Verdict.{Verdict, ac, wa}
use arena.Core.Job.{JobSpec, TestRef, CheckerConfig, ExecOutcome, TestResult}
use arena.Core.Classify.{classify_run}
use arena.Langs.Manifest.{Manifest}
use arena.Langs.Registry.{Registry}
use arena.Judge.Sanitize.{sanitize}
use arena.Judge.Box.{Dir, read_file, capped}

pub record RunSpec : Type 0 where
  pub image : String
  pub cmd : List String
  pub stdin_path : String
  pub limits : Limits
  pub env : List String
  pub cpu_set : ℤ
  pub network : Bool
  pub disable_aslr : Bool

-- A sandbox runs a command on a box, and gives what it observed and the box behind it, or fails.
abbrev pub Sandbox : Type 0
Sandbox = RunSpec → Dir → Option (ExecOutcome × Dir)

pub record Judge (fl : Multiplier) : Type 0 where
  pub sandbox : Sandbox
  pub blobs : String → Option (List ℕ)
  pub langs : Registry fl.Float
  pub checker :
      String → Option (List ℕ → Option (List ℕ) → CheckerConfig fl.Float → Option (Bool × List ℕ))
  pub is_alive : TestRef → Bool
  pub now : ℤ
  pub runner_id : String
  pub cpu_model : String

pub data JudgeError : Type 0 where
  unknown_language unknown_checker no_source compile_failed preempted no_testdata run_failed
        check_failed :
      JudgeError

-- The node's cache of test data: the version, the problem, the index, and the input or the output.
pub record CacheKey : Type 0 where
  pub version : String
  pub problem : String
  pub index : ℤ
  pub is_output : Bool

abbrev pub same_bool : Bool → Bool → Bool
same_bool true b = b
same_bool false b = not b

abbrev pub same_key : CacheKey → CacheKey → Bool
same_key a b =
    str_eq a.version b.version
    && str_eq a.problem b.problem
    && eqb_ℤ a.index b.index
    && same_bool a.is_output b.is_output

abbrev pub Cache : Type 0
Cache = List (CacheKey × List ℕ)

unfoldable pub find_cached : CacheKey → Cache → Option (List ℕ)
find_cached k [] = none
find_cached k ((j, b) ∷ cache) = if same_key j k then some b else find_cached k cache

-- A file of the cache, fetched if it is not there.
unfoldable pub fetch :
    (String → Option (List ℕ)) → CacheKey → String → Cache → Option (List ℕ × Cache)
unfolding find_cached
fetch blobs k ref cache = elim (find_cached k cache) [
  | some b ↦ some (b, cache)
  | none ↦ elim (blobs ref) [ none ↦ none | some b ↦ some (b, (k, b) ∷ cache) ]
]

-- The verdict of a run: only a process that ended cleanly is checked.
abbrev pub ended_cleanly : ExecOutcome → Bool
ended_cleanly out =
    eqb_ℤ out.exit_code (pos 0)
    && eqb_ℤ out.signal (pos 0)
    && not out.wall_kill
    && not out.oom_killed

abbrev pub is_wa : Verdict → Bool
is_wa wa = true
is_wa _ = false

unfoldable pub skipped_tests : TestRef → List TestRef → List TestResult
skipped_tests tc [] = []
skipped_tests tc (rest ∷ tests) =
    let more = skipped_tests tc tests in
    if ltb_ℤ tc.index rest.index
    then record {
      index = rest.index;
      verdict = ac;
      cpu_ms = pos 0;
      wall_ms = pos 0;
      mem_kb = pos 0;
      exit_code = pos 0;
      signal = pos 0;
      message = [];
      skipped = true;
      sample_out = [];
    }
      ∷ more
    else more

abbrev pub prepend :
    TestResult → JudgeError ⊎ (List TestResult × Cache) → JudgeError ⊎ (List TestResult × Cache)
prepend tr (inl e) = inl e
prepend tr (inr (trs, cache)) = inr (tr ∷ trs, cache)

module _ (fl : Multiplier) where
  open fl use {Float}

  abbrev pub Check : Type 0
  Check = List ℕ → Option (List ℕ) → CheckerConfig Float → Option (Bool × List ℕ)

  -- `testdata`: the input and the expected output.
  unfoldable pub testdata :
      (String → Option (List ℕ))
      → JobSpec Float
      → TestRef
      → Cache
      → Option (List ℕ × List ℕ × Cache)
  unfolding fetch
  testdata blobs job tc cache =
      let key : CacheKey = record {
        version = job.testdata_version;
        problem = job.problem_id;
        index = tc.index;
        is_output = false;
      } in
      elim (fetch blobs key tc.input_ref cache) [
        | none ↦ none
        | some (input, cache') ↦
            elim (fetch blobs (record key { is_output = true }) tc.output_ref cache') [
              | none ↦ none
              | some (expected, cache'') ↦ some (input, expected, cache'')
            ]
      ]

  abbrev pub run_spec : JobSpec Float → Manifest Float → ℤ → RunSpec
  run_spec job m cpu = record {
    image = m.image;
    cmd = m.run;
    stdin_path = "/box/input";
    limits = job.limits.run;
    env = m.env;
    cpu_set = cpu;
    network = job.policy.network;
    disable_aslr = job.policy.disable_aslr;
  }

  unfoldable pub check_output :
      JobSpec Float → Check → List ℕ → ExecOutcome → Option (List ℕ) → Option (Bool × List ℕ)
  check_output job chk expected out stdout =
      if ended_cleanly out then chk expected stdout job.checker else some (false, [])

  unfoldable pub test_result :
      JobSpec Float → TestRef → ExecOutcome → Option (List ℕ) → Bool × List ℕ → TestResult
  unfolding classify_run sanitize
  test_result job tc out stdout (correct, msg) =
      let v = classify_run out job.limits.run correct in
      record {
        index = tc.index;
        verdict = v;
        cpu_ms = out.cpu_ms;
        wall_ms = out.wall_ms;
        mem_kb = out.max_rss_kb;
        exit_code = out.exit_code;
        signal = out.signal;
        message = if is_wa v then msg else [];
        skipped = false;
        sample_out = if tc.is_sample then sanitize 0 (capped stdout 2000) else [];
      }

  -- `runOne` behind the test data: `none` is a failure of the checker.
  unfoldable pub judge_run :
      JobSpec Float → Check → TestRef → List ℕ → ExecOutcome → Option (List ℕ) → Option TestResult
  unfolding check_output test_result
  judge_run job chk tc expected out stdout = elim (check_output job chk expected out stdout) [
    | none ↦ none
    | some r ↦ some (test_result job tc out stdout r)
  ]

  abbrev pub judged : Option TestResult → Dir → Cache → JudgeError ⊎ (TestResult × Dir × Cache)
  judged none box cache = inl check_failed
  judged (some tr) box cache = inr (tr, box, cache)

  -- `runOne` behind the sandbox.
  unfoldable pub settle_run :
      JobSpec Float
      → Check
      → TestRef
      → List ℕ
      → Cache
      → Option (ExecOutcome × Dir)
      → JudgeError ⊎ (TestResult × Dir × Cache)
  unfolding judge_run read_file
  settle_run job chk tc expected cache none = inl run_failed
  settle_run job chk tc expected cache (some (out, box)) =
      judged (judge_run job chk tc expected out (read_file "stdout" box)) box cache
