-- ===== src/Judge/Examples.antt =====
-- Tests of internal/judge, and its theorems at concrete inputs.
use arena.Common.{
  ℤ, pos, ◌+ℤ◌, ◌≡◌, ◌++◌, arith, refl, true, false, some, none, List, [], ◌∷◌, All, wrap64,
}
use arena.Core.Limits.{default_run_limits, default_compile_limits}
use arena.Core.Verdict.{wa}
use arena.Core.Job.{JobSpec, TestRef, ExecOutcome, TestResult, default_policy}
use arena.Core.Scoring.{points_at}
use arena.Langs.Examples.{whole, python}
use arena.Judge.Box.{
  Dir, nil, file, dir, read_file, remove, names, remove_names, is_artefact, sub_dir, copy_tree,
  reset_box,
}
use arena.Judge.Sanitize.{tail_width, sanitize, IsHarmless, sanitize-IsHarmless}
use arena.Judge.Test.{Sandbox, Judge, Cache, Check, skipped_tests}
use arena.Judge.Run.{run_tests}
use arena.Judge.Run.Isolation.{run_tests-isolated}
use arena.Judge.Run.Skipped.{later_points}

-- ESC [ 2 J, an é, a byte that is no UTF-8, a line end.
sanitize_text :
    sanitize 0 (27 ∷ 91 ∷ 50 ∷ 74 ∷ 195 ∷ 169 ∷ 255 ∷ 10 ∷ [])
    ≡ 91 ∷ 50 ∷ 74 ∷ 195 ∷ 169 ∷ 239 ∷ 191 ∷ 189 ∷ 10 ∷ []
unfolding sanitize tail_width
sanitize_text = refl

sanitize-IsHarmless_example :
    All IsHarmless (sanitize 0 (27 ∷ 91 ∷ 195 ∷ 169 ∷ 255 ∷ []))
    × (sanitize 0 (111 ∷ 107 ∷ [] ++ 27 ∷ 91 ∷ 195 ∷ 169 ∷ 255 ∷ [])
        ≡ 111 ∷ 107 ∷ [] ++ sanitize 0 (27 ∷ 91 ∷ 195 ∷ 169 ∷ 255 ∷ []))
sanitize-IsHarmless_example =
    sanitize-IsHarmless (111 ∷ 107 ∷ []) (27 ∷ 91 ∷ 195 ∷ 169 ∷ 255 ∷ [])
      (omega arith, (omega arith, tt))

abbrev built : Dir
built = file "prog" (1 ∷ []) (file "stdout" (9 ∷ []) (dir "lib" (file "a" (2 ∷ []) nil) nil))

abbrev spoiled : Dir
spoiled = file "prog" (6 ∷ 6 ∷ []) (file "meta.json" [] nil)

restored_box :
    reset_box spoiled built ≡ dir "lib" (file "a" (2 ∷ []) nil) (file "prog" (1 ∷ []) nil)
unfolding reset_box names remove_names remove copy_tree is_artefact sub_dir
restored_box = refl

abbrev clean_exit : ExecOutcome
clean_exit = record {
  exit_code = pos 0;
  signal = pos 0;
  cpu_ms = pos 10;
  wall_ms = pos 20;
  max_rss_kb = pos 1000;
  oom_killed = false;
  wall_kill = false;
  fsize_kill = false;
  stdout_len = pos 1;
  instructions = pos 0;
  stderr = "";
}

-- A program that prints 7 and leaves the box alone, and one that fills the box as well.
abbrev tidy : Sandbox
tidy spec box = some (clean_exit, file "stdout" (55 ∷ []) box)

abbrev messy : Sandbox
messy spec box = some (clean_exit, file "stdout" (55 ∷ []) (file "prog" [] spoiled))

abbrev pub judge : Judge whole
judge = record {
  sandbox = tidy;
  blobs = λ ref. some (55 ∷ []);
  langs = ("python", python) ∷ [];
  checker = λ kind. none;
  is_alive = λ tc. true;
  now = pos 9;
  runner_id = "r1";
  cpu_model = "";
}

abbrev first_test : TestRef
first_test = record {
  index = pos 1;
  input_ref = "in";
  output_ref = "out";
  is_sample = true;
  points = pos 10;
}

abbrev two_tests : List TestRef
two_tests = first_test ∷ record first_test { index = pos 2; points = pos 90 } ∷ []

abbrev pub job : JobSpec ℤ
job = record {
  submission_id = "s1";
  attempt = pos 1;
  contest_id = "spring";
  problem_id = "A";
  user_id = "ada";
  language = "python";
  source_ref = "src/0";
  source_hash = "0";
  image_digest = "";
  testdata_version = "v1";
  tests = two_tests;
  limits = record { compile = default_compile_limits; run = default_run_limits };
  checker = record { kind = "token"; epsilon = pos 0 };
  policy = default_policy;
  enqueued_at = pos 0;
}

abbrev pub always : Check whole
always expected stdout cfg = some (true, [])

agree_on_stdout : read_file "stdout" (file "stdout" (55 ∷ []) nil) ≡ some (55 ∷ [])
unfolding read_file
agree_on_stdout = refl

run_tests-isolated_example :
    run_tests whole judge job python always two_tests nil built (pos 1) []
    ≡ run_tests whole
        (record judge { sandbox = messy })
        job
        python
        always
        two_tests
        spoiled
        built
        (pos 1)
        []
unfolding read_file
run_tests-isolated_example =
    run_tests-isolated whole judge messy (λ spec box. (refl, refl)) job python always built (pos 1)
      two_tests nil spoiled []

-- A checker that takes nothing, and the result of the first test with it.
abbrev never : Check whole
never expected stdout cfg = some (false, [])

abbrev failed_first : TestResult
failed_first = record {
  index = pos 1;
  verdict = wa;
  cpu_ms = pos 10;
  wall_ms = pos 20;
  mem_kb = pos 1000;
  exit_code = pos 0;
  signal = pos 0;
  message = [];
  skipped = false;
  sample_out = 55 ∷ [];
}

-- 90 points for the test that did not run.
later_points_two : later_points (pos 0) first_test two_tests two_tests ≡ pos 90
unfolding later_points points_at ◌+ℤ◌ wrap64
later_points_two = refl

abbrev stopped : List TestResult
stopped = failed_first ∷ skipped_tests first_test two_tests

abbrev fetched : Cache
fetched =
    (record { version = "v1"; problem = "A"; index = pos 1; is_output = true }, 55 ∷ [])
    ∷ (record { version = "v1"; problem = "A"; index = pos 1; is_output = false }, 55 ∷ [])
    ∷ []
