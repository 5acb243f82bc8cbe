-- ===== src/Store.antt =====
-- internal/adapters/postgres/store.go: the statements on submissions, test rows and the verdict
-- cache. A table is the list of its rows; ids are valid, and numbers lie in their columns' ranges.
pub mod Rows
pub mod Final
pub mod Standings
pub mod Examples
use arena.Common.{
  ℕ, zero, suc, ltb, ◌==◌, ◌+◌, ℤ, pos, negsuc, ◌+ℤ◌, ◌≤ℤ◌, eqb_ℤ, leb_ℤ, ltb_ℤ, leb, String,
  str_eq, Bool, true, false, ◌&&◌, ◌||◌, not, Option, none, some, List, [], ◌∷◌, ◌++◌, map, length,
  take, filter, if◌then◌else◌,
}
use arena.Core.Verdict.{Verdict, ie, Status, queued, judging, done, failed, is_done}
use arena.Judge.Sanitize.{tail_width}
use arena.Core.Job.{TestResult, SubmissionResult}

-- A row of `submissions`; a null verdict or idempotency key is `none`.
pub record Row : Type 0 where
  pub id : String
  pub user_id : String
  pub problem_id : String
  pub contest_id : String
  pub language : String
  pub source_ref : String
  pub source_hash : String
  pub status : Status
  pub verdict : Option Verdict
  pub cpu_ms : ℤ
  pub wall_ms : ℤ
  pub mem_kb : ℤ
  pub instructions : ℤ
  pub score : ℤ
  pub failed_test : ℤ
  pub compile_log : List ℕ
  pub attempt : ℤ
  pub runner_id : String
  pub image_digest : String
  pub testdata_version : String
  pub cpu_model : String
  pub idempotency_key : Option String
  pub created_at : ℤ
  pub judged_at : Option ℤ

-- A row of `submission_tests`.
pub record TestRow : Type 0 where
  pub submission_id : String
  pub result : TestResult

pub record Db : Type 0 where
  pub rows : List Row
  pub tests : List TestRow
  pub cache : List (String × SubmissionResult)

-- A statement that Postgres refuses leaves the tables as they were.
pub data DbResult {ℓ} (A : Type ℓ) : Type ℓ where
  ok : A → DbResult A
  refused : DbResult A

-- `UPDATE submissions SET … WHERE …`
unfoldable pub update_rows : (Row → Bool) → (Row → Row) → List Row → List Row
update_rows where_ set_ [] = []
update_rows where_ set_ (x ∷ rows) = (if where_ x then set_ x else x) ∷ update_rows where_ set_ rows

unfoldable pub any_row : (Row → Bool) → List Row → Bool
any_row where_ [] = false
any_row where_ (x ∷ rows) = where_ x || any_row where_ rows

unfoldable pub find_row : (Row → Bool) → List Row → Option Row
find_row where_ [] = none
find_row where_ (x ∷ rows) = if where_ x then some x else find_row where_ rows

abbrev pub has_id : String → Row → Bool
has_id id x = str_eq x.id id

-- `status IN ('QUEUED','JUDGING')`
unfoldable pub is_open : Status → Bool
is_open queued = true
is_open judging = true
is_open _ = false

-- `truncate`: at most n bytes, and a mark if any are left out.
abbrev pub truncation_mark : List ℕ
truncation_mark =
    10 ∷ 46 ∷ 46 ∷ 46 ∷ 32 ∷ 91 ∷ 116 ∷ 114 ∷ 117 ∷ 110 ∷ 99 ∷ 97 ∷ 116 ∷ 101 ∷ 100 ∷ 93 ∷ []

unfoldable pub truncate : List ℕ → ℕ → List ℕ
truncate s n = if leb (length s) n then s else take n s ++ truncation_mark

unfoldable pub mark_judging : Db → String → String → ℤ → Db
unfolding update_rows is_open
mark_judging db id runner attempt = record db {
  rows =
      update_rows (λ x. has_id id x && is_open x.status)
        (λ x. record x { status = judging; runner_id = runner; attempt = attempt }) db.rows;
}

-- The CHECK constraints of `submissions`: one of the four statuses and of the eight verdicts.
unfoldable pub is_known_status : Status → Bool
is_known_status (Status.unknown s) = false
is_known_status _ = true

unfoldable pub is_known_verdict : Verdict → Bool
is_known_verdict (Verdict.other s) = false
is_known_verdict _ = true

-- `id=$1 AND status <> 'DONE'`
unfoldable pub is_unfinished : String → Row → Bool
unfolding is_done
is_unfinished id x = has_id id x && not (is_done x.status)

unfoldable pub finish_row : SubmissionResult → ℤ → Row → Row
finish_row r now x = record x {
  status = r.status;
  verdict = some r.verdict;
  cpu_ms = r.cpu_ms;
  wall_ms = r.wall_ms;
  mem_kb = r.mem_kb;
  instructions = r.instructions;
  score = r.score;
  failed_test = r.failed_test;
  compile_log = truncate r.compile_log 8000;
  runner_id = r.runner_id;
  attempt = r.attempt;
  image_digest = r.image_digest;
  cpu_model = r.cpu_model;
  judged_at = some now;
}

-- `INSERT … ON CONFLICT (submission_id, idx) DO UPDATE`. A row has no sample output.
abbrev pub same_test : String → ℤ → TestRow → Bool
same_test id idx t = str_eq t.submission_id id && eqb_ℤ t.result.index idx

unfoldable pub upsert_test : String → TestResult → List TestRow → List TestRow
upsert_test id t [] =
    record {
      submission_id = id;
      result = record t { message = truncate t.message 500; sample_out = [] };
    }
    ∷ []
upsert_test id t (x ∷ rows) =
    if same_test id t.index x
    then record x { result = record t { message = truncate t.message 500; sample_out = [] } } ∷ rows
    else x ∷ upsert_test id t rows

unfoldable pub upsert_tests : String → List TestResult → List TestRow → List TestRow
unfolding upsert_test truncate
upsert_tests id [] rows = rows
upsert_tests id (t ∷ ts) rows = upsert_tests id ts (upsert_test id t rows)

-- What a text column takes: UTF-8 without a zero byte. `k` bytes of a sequence are still to be read.
unfoldable pub is_text : ℕ → List ℕ → Bool
unfolding tail_width
is_text k [] = true
is_text (suc k) (b ∷ rest) = is_text k rest
is_text zero (b ∷ rest) = elim (ltb b 128) [
  | true ↦ let more = is_text zero rest in not (b == 0) && more
  | false ↦ elim (tail_width (b ∷ rest)) [ zero ↦ false | suc k ↦ is_text (suc k) rest ]
]

-- The texts of a report as they are stored, some of them cut.
unfoldable pub are_messages : List TestResult → Bool
unfolding is_text truncate
are_messages [] = true
are_messages (t ∷ ts) = is_text 0 (truncate t.message 500) && are_messages ts

unfoldable pub are_texts : SubmissionResult → Bool
unfolding is_text truncate are_messages
are_texts r = is_text 0 (truncate r.compile_log 8000) && are_messages r.tests

-- Where a row is updated, Postgres refuses an outcome that it does not know, and a text that is
-- none. (A report that updates no row is taken to hold texts that Postgres can read.)
unfoldable pub save_result : Db → SubmissionResult → ℤ → DbResult Db
unfolding update_rows any_row is_unfinished finish_row upsert_tests is_known_status is_known_verdict
    are_texts
save_result db r now =
    if any_row (is_unfinished r.submission_id) db.rows
    then (if is_known_status r.status && is_known_verdict r.verdict && are_texts r
        then ok (record db {
          rows = update_rows (is_unfinished r.submission_id) (finish_row r now) db.rows;
          tests = upsert_tests r.submission_id r.tests db.tests;
        })
        else refused)
    else ok db

-- The new attempt; `refused` if no row has the id.
unfoldable pub bump_attempt : Db → String → DbResult (Db × ℤ)
unfolding update_rows find_row
bump_attempt db id = elim (find_row (has_id id) db.rows) [
  | none ↦ refused
  | some x ↦ ok (
    record db {
      rows = update_rows (has_id id) (λ y. record y { attempt = y.attempt +ℤ pos 1 }) db.rows;
    },
    x.attempt +ℤ pos 1,
  )
]

-- What the caller of `CreateSubmission` fills in.
pub record NewSubmission : Type 0 where
  pub user_id : String
  pub problem_id : String
  pub contest_id : String
  pub language : String
  pub source_ref : String
  pub source_hash : String
  pub testdata_version : String
  pub idempotency_key : String

unfoldable pub null_str : String → Option String
null_str s = if str_eq s "" then none else some s

-- The row that holds a user's idempotency key. A null key equals nothing.
abbrev pub key_is : String → Option String → Bool
key_is key none = false
key_is key (some k) = str_eq k key

abbrev pub has_key : String → String → Row → Bool
has_key user key x = str_eq x.user_id user && key_is key x.idempotency_key

unfoldable pub new_row : NewSubmission → String → ℤ → Row
unfolding null_str
new_row s id now = record {
  id = id;
  user_id = s.user_id;
  problem_id = s.problem_id;
  contest_id = s.contest_id;
  language = s.language;
  source_ref = s.source_ref;
  source_hash = s.source_hash;
  status = queued;
  verdict = none;
  cpu_ms = pos 0;
  wall_ms = pos 0;
  mem_kb = pos 0;
  instructions = pos 0;
  score = pos 0;
  failed_test = negsuc 0;
  compile_log = [];
  attempt = pos 0;
  runner_id = "";
  image_digest = "";
  testdata_version = s.testdata_version;
  cpu_model = "";
  idempotency_key = null_str s.idempotency_key;
  created_at = now;
  judged_at = none;
}

-- `INSERT INTO submissions`: the generated id is a primary key, and the index on (user_id,
-- idempotency_key) is unique where the key is not null.
unfoldable pub create_submission : Db → NewSubmission → String → ℤ → DbResult (Db × Row)
unfolding any_row new_row
create_submission db s id now =
    if any_row (has_id id) db.rows
      || (not (str_eq s.idempotency_key "")
          && any_row (has_key s.user_id s.idempotency_key) db.rows)
    then refused
    else ok (record db { rows = db.rows ++ new_row s id now ∷ [] }, new_row s id now)

unfoldable pub find_by_idempotency_key : Db → String → String → Option Row
unfolding find_row
find_by_idempotency_key db user key =
    if str_eq key "" then none else find_row (has_key user key) db.rows

unfoldable pub find_payload : String → List (String × SubmissionResult) → Option SubmissionResult
find_payload key [] = none
find_payload key ((k, r) ∷ cache) = if str_eq k key then some r else find_payload key cache

-- `UPDATE verdict_cache SET hits = hits + 1 … RETURNING payload`; the hits are not kept.
unfoldable pub cached_verdict : Db → String → Option SubmissionResult
unfolding find_payload
cached_verdict db key = find_payload key db.cache

-- `INSERT … ON CONFLICT (cache_key) DO NOTHING`
-- The entry is taken to be one that Postgres accepts; a failure is ignored.
unfoldable pub put_cached_verdict : Db → String → SubmissionResult → Db
unfolding cached_verdict
put_cached_verdict db key r = elim (cached_verdict db key) [
  | none ↦ record db { cache = (key, r) ∷ db.cache }
  | some old ↦ db
]

-- `StuckSubmissions`: the open rows created before a time, in the order of the table, at most
-- `limit` of them. The table is taken to be in the order of `created_at`.
unfoldable pub stuck_submissions : Db → ℤ → ℕ → List Row
unfolding is_open
stuck_submissions db before limit =
    take limit (filter (λ x. is_open x.status && ltb_ℤ x.created_at before) db.rows)
