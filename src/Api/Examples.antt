-- ===== src/Api/Examples.antt =====
-- Tests of the handlers, and their theorems at concrete inputs.
use arena.Common.{ℤ, pos, String, str_eq, ◌≡◌, refl, some, none, [], ◌∷◌, if◌then◌else◌}
use arena.Core.Limits.{default_run_limits}
use arena.Core.Verdict.{ac}
use arena.Core.Job.{SubmissionResult}
use arena.Core.Scoring.{icpc}
use arena.Redis.Leaderboard.{lookup, run_of}
use arena.Redis.Leaderboard.Best.{IsScored, better}
use arena.Store.{Db, any_row, is_unfinished, find_row, save_result}
use arena.Store.Examples.{one_row, judged_db, judged_row, report}
use arena.Langs.Examples.{whole, python}
use arena.Api.World.{Problem, Contest, World, Server}
use arena.Api.Result.{accepted_stat, settle, or_done, handle_result}
use arena.Api.Result.Again.{SameStandings}
use arena.Api.Result.Duplicate.{handle_result-duplicate, handle_result-contradiction}

abbrev pub problem_a : Problem ℤ
problem_a = record {
  id = "A";
  contest_id = "spring";
  limits = default_run_limits;
  checker = record { kind = "token"; epsilon = pos 0 };
  testdata_version = "v1";
}

abbrev pub spring : Contest
spring = record { id = "spring"; starts_at = pos 1; scoring_mode = icpc }

abbrev pub server : Server whole
server = record {
  problem = λ id. if str_eq id "A" then some problem_a else none;
  tests = λ id. [];
  contest = λ id. if str_eq id "spring" then some spring else none;
  langs = ("python", python) ∷ [];
  max_attempts = pos 3;
  source_hash = λ bytes. "hash";
  cache_key = λ s l i t lim. s;
}

abbrev pub world_of : Db → World ℤ
world_of db = record {
  db = db;
  blobs = [];
  boards = λ c. record { stats = λ u. []; zset = [] };
  in_flight = "ada" ∷ [];
  queue = [];
  events = [];
}

pub world_of-IsScored :
    (c : String) (k : Contest)
    → server.contest c ≡ some k
    → IsScored k.scoring_mode ((world_of one_row).boards c)
world_of-IsScored c k e = record { at_user = λ u. unfold lookup in refl }

abbrev pub accepted : SubmissionResult
accepted = record report { verdict = ac }

abbrev after_first : World ℤ
after_first = (handle_result whole server (world_of one_row) (some accepted) (pos 10)).0

first_answer :
    handle_result whole server (world_of one_row) (some accepted) (pos 10) ≡ (after_first, 204)
unfolding handle_result settle save_result find_row
first_answer = refl

handle_result-duplicate_example :
    (w2 : World ℤ) × (handle_result whole server after_first (some accepted) (pos 70) ≡ (w2, 204))
    × (w2.db ≡ after_first.db)
    × ((c : String) → SameStandings (w2.boards c) (after_first.boards c))
unfolding or_done
handle_result-duplicate_example =
    handle_result-duplicate whole server (world_of one_row) after_first accepted (pos 10) (pos 70)
      refl world_of-IsScored first_answer

handle_result-contradiction_example :
    (w' : World ℤ) × (handle_result whole server (world_of judged_db) (some accepted) (pos 70)
      ≡ (w', 204))
    × (w'.db.rows ≡ judged_db.rows)
    × (lookup "A" ((w'.boards "spring").stats "ada")
        ≡ some
            (better none (run_of (accepted_stat (record accepted { judged_at = pos 70 })) (pos 1))))
unfolding any_row is_unfinished find_row or_done lookup
handle_result-contradiction_example =
    handle_result-contradiction whole server (world_of judged_db) accepted (pos 70) judged_row
      problem_a spring refl refl refl refl refl refl
