-- ===== src/Store/Examples.antt =====
-- Tests of the statements on submissions, and their theorems at concrete inputs.
use arena.Common.{pos, negsuc, ◌≡◌, refl, some, none, [], ◌∷◌, true}
use arena.Core.Verdict.{wa, judging, done, is_done}
use arena.Core.Job.{SubmissionResult}
use arena.Store.{
  Row, Db, ok, find_row, finish_row, truncate, mark_judging, save_result, put_cached_verdict,
}
use arena.Store.Rows.{row_of}
use arena.Store.Final.{here, next, mark, put, Keeps, Reach-Keeps}

abbrev pub queued_row : Row
queued_row = record {
  id = "s1";
  user_id = "ada";
  problem_id = "A";
  contest_id = "spring";
  language = "cpp";
  source_ref = "src/0";
  source_hash = "0";
  status = judging;
  verdict = none;
  cpu_ms = pos 0;
  wall_ms = pos 0;
  mem_kb = pos 0;
  instructions = pos 0;
  score = pos 0;
  failed_test = negsuc 0;
  compile_log = [];
  attempt = pos 1;
  runner_id = "r1";
  image_digest = "";
  testdata_version = "v1";
  cpu_model = "";
  idempotency_key = some "k";
  created_at = pos 5;
  judged_at = none;
}

abbrev pub one_row : Db
one_row = record { rows = queued_row ∷ []; tests = []; cache = [] }

abbrev pub report : SubmissionResult
report = record {
  submission_id = "s1";
  attempt = pos 1;
  runner_id = "r1";
  verdict = wa;
  status = done;
  cpu_ms = pos 40;
  wall_ms = pos 50;
  mem_kb = pos 900;
  instructions = pos 0;
  score = pos 0;
  failed_test = pos 1;
  compile_log = [];
  tests = [];
  image_digest = "";
  cpu_model = "";
  judged_at = pos 9;
}

abbrev pub judged_row : Row
judged_row = record queued_row {
  status = done;
  verdict = some wa;
  cpu_ms = pos 40;
  wall_ms = pos 50;
  mem_kb = pos 900;
  failed_test = pos 1;
  judged_at = some (pos 10);
}

abbrev pub judged_db : Db
judged_db = record { rows = judged_row ∷ []; tests = []; cache = [] }

pub save_report : save_result one_row report (pos 10) ≡ ok judged_db
unfolding save_result finish_row truncate
save_report = refl

judged_found : row_of judged_db "s1" ≡ some judged_row
unfolding find_row
judged_found = refl

judged_done : is_done judged_row.status ≡ true
unfolding is_done
judged_done = refl

Reach-Keeps_example :
    Keeps "s1" judged_row
      (put_cached_verdict (mark_judging judged_db "s1" "r2" (pos 2)) "key" report)
Reach-Keeps_example =
    Reach-Keeps "s1" judged_row judged_found judged_done
      (next (next here (mark "s1" "r2" (pos 2) refl)) (put "key" report refl))
