-- ===== src/Api/Pages.antt =====
-- The submissions that are read: `handleGetSubmission` and `handleListSubmissions` of
-- internal/api/handlers_submissions.go, with `GetSubmission` and `ListSubmissions` of
-- internal/adapters/postgres/store.go. The numbers that strconv.Atoi makes of two query parameters
-- are part of a request.
pub mod Own
mod Examples
use arena.Common.{
  ℕ, zero, suc, ℤ, pos, leb_ℤ, ltb_ℤ, String, str_eq, Bool, ◌&&◌, ◌||◌, not, true, false, Option,
  none, some, List, [], ◌∷◌, map, take, filter, order_by, if◌then◌else◌, pos_part,
}
use arena.Core.Verdict.{Verdict, Status}
use arena.Core.Job.{TestResult}
use arena.Api.Auth.{Claims, User}
use arena.Store.{Row, TestRow, Db, DbResult, ok, refused, find_row, has_id}

-- `SELECT … FROM submission_tests WHERE submission_id = $1 ORDER BY idx`
unfoldable pub index_first : TestResult → TestResult → Bool
index_first t u = leb_ℤ t.index u.index

unfoldable pub tests_of : String → List TestRow → List TestResult
unfolding index_first order_by
tests_of id tests =
    order_by index_first (map (λ t. t.result) (filter (λ t. str_eq t.submission_id id) tests))

-- `GetSubmission`, on a database that answers.
unfoldable pub get_submission : Db → String → Option (Row × List TestResult)
unfolding find_row tests_of
get_submission db id = elim (find_row (has_id id) db.rows) [
  | none ↦ none
  | some x ↦ some (x, tests_of id db.tests)
]

-- `sub.UserID != u.UserID && u.Role != "admin" && u.Role != "setter"`, negated.
abbrev pub may_read : Claims → Row → Bool
may_read u x = str_eq x.user_id u.user_id || str_eq u.role "admin" || str_eq u.role "setter"

unfoldable pub shown : Claims → Option (Row × List TestResult) → ℕ × Option (Row × List TestResult)
shown u none = (404, none)
shown u (some sub) = if may_read u sub.0 then (200, some sub) else (403, none)

unfoldable pub handle_get_submission : Claims → Db → String → ℕ × Option (Row × List TestResult)
unfolding get_submission shown
handle_get_submission u db id = shown u (get_submission db id)

pub record SubmissionFilter : Type 0 where
  pub user_id : String
  pub problem_id : String
  pub contest_id : String
  pub limit : ℤ
  pub offset : ℤ

-- A row of the page.
pub record Listing : Type 0 where
  pub id : String
  pub user_id : String
  pub handle : String
  pub problem_id : String
  pub contest_id : String
  pub language : String
  pub status : Status
  pub verdict : Option Verdict
  pub cpu_ms : ℤ
  pub mem_kb : ℤ
  pub score : ℤ
  pub failed_test : ℤ
  pub created_at : ℤ

abbrev pub listing : Row → User → Listing
listing x u = record {
  id = x.id;
  user_id = x.user_id;
  handle = u.handle;
  problem_id = x.problem_id;
  contest_id = x.contest_id;
  language = x.language;
  status = x.status;
  verdict = x.verdict;
  cpu_ms = x.cpu_ms;
  mem_kb = x.mem_kb;
  score = x.score;
  failed_test = x.failed_test;
  created_at = x.created_at;
}

-- `FROM submissions s JOIN users u ON u.id = s.user_id`
unfoldable pub with_user : Row → List User → List Listing → List Listing
with_user x [] rest = rest
with_user x (u ∷ users) rest =
    let more = with_user x users rest in if str_eq u.id x.user_id then listing x u ∷ more else more

unfoldable pub join_users : List User → List Row → List Listing
unfolding with_user
join_users users [] = []
join_users users (x ∷ rows) = with_user x users (join_users users rows)

-- `$1 = '' OR s.user_id::text = $1`
abbrev pub matches : String → String → Bool
matches wanted value = str_eq wanted "" || str_eq value wanted

unfoldable pub is_wanted : SubmissionFilter → Listing → Bool
is_wanted f x =
    matches f.user_id x.user_id
    && matches f.problem_id x.problem_id
    && matches f.contest_id x.contest_id

-- `ORDER BY s.created_at DESC`; among rows of one time the order is free.
unfoldable pub newest_first : Listing → Listing → Bool
newest_first x y = leb_ℤ y.created_at x.created_at

-- `LIMIT` behind `OFFSET`.
unfoldable pub behind : ℕ → List Listing → List Listing
behind zero xs = xs
behind (suc n) [] = []
behind (suc n) (x ∷ xs) = behind n xs

unfoldable pub limit_of : ℤ → ℕ
limit_of n = if leb_ℤ n (pos 0) || ltb_ℤ (pos 100) n then 50 else pos_part n

-- `ListSubmissions`; Postgres refuses a negative offset.
unfoldable pub list_submissions : List User → Db → SubmissionFilter → DbResult (List Listing)
unfolding join_users is_wanted newest_first order_by behind limit_of
list_submissions users db f =
    if ltb_ℤ f.offset (pos 0)
    then refused
    else ok (
        take (limit_of f.limit) (
          behind (pos_part f.offset)
            (order_by newest_first (filter (is_wanted f) (join_users users db.rows)))))

-- The query parameters.
pub record ListRequest : Type 0 where
  pub user : String
  pub problem : String
  pub contest : String
  pub limit : ℤ
  pub offset : ℤ

unfoldable pub filter_of : Claims → ListRequest → SubmissionFilter
filter_of u r = record {
  user_id = if str_eq u.role "admin" && not (str_eq r.user "") then r.user else u.user_id;
  problem_id = r.problem;
  contest_id = r.contest;
  limit = r.limit;
  offset = r.offset;
}

unfoldable pub listed : DbResult (List Listing) → ℕ × List Listing
listed refused = (500, [])
listed (ok out) = (200, out)

unfoldable pub handle_list_submissions : Claims → List User → Db → ListRequest → ℕ × List Listing
unfolding filter_of list_submissions listed
handle_list_submissions u users db r = listed (list_submissions users db (filter_of u r))
