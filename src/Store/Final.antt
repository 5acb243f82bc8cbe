-- ===== src/Store/Final.antt =====
-- A finished submission stays as it was reported, whatever is delivered again.
use arena.Common.{
  ℤ, pos, ◌+ℤ◌, String, str_eq_iff, Bool, true, false, ◌≡◌, refl, ap, ◌∙◌, some, List, [], ◌∷◌,
  if◌then◌else◌, arith,
}
use arena.Core.Verdict.{Status, done, is_done}
use arena.Core.Job.{SubmissionResult}
use arena.Store.{
  Row, Db, ok, update_rows, any_row, has_id, is_open, mark_judging, is_unfinished, finish_row,
  save_result, bump_attempt, NewSubmission, new_row, create_submission, put_cached_verdict,
}
use arena.Store.Rows.{row_of, find_row-update, find_row-append}

any_row-update :
    (w : Row → Bool) (f : Row → Row) (rows : List Row)
    → ((x : Row) → w x ≡ true → w (f x) ≡ false)
    → any_row w (update_rows w f rows) ≡ false
unfolding any_row update_rows
any_row-update w f [] h = refl
any_row-update w f (x ∷ rows) h = ground (arith, h x, any_row-update w f rows h)

finished_after :
    (r : SubmissionResult) (now : ℤ)
    → r.status ≡ done
    → (x : Row) → is_unfinished r.submission_id x ≡ true
    → is_unfinished r.submission_id (finish_row r now x) ≡ false
unfolding is_unfinished finish_row
finished_after r now d x h = ground arith

-- A saved report with status DONE leaves no unfinished row of its submission.
pub save_result-finishes :
    (db db' : Db) (r : SubmissionResult) (now : ℤ)
    → r.status ≡ done
    → save_result db r now ≡ ok db'
    → any_row (is_unfinished r.submission_id) db'.rows ≡ false
unfolding save_result
save_result-finishes db db' r now d s = ground (
  arith,
  any_row-update (is_unfinished r.submission_id) (finish_row r now) db.rows
      (finished_after r now d),
)

pub save_result_finished :
    (db : Db) (r : SubmissionResult) (now : ℤ)
    → any_row (is_unfinished r.submission_id) db.rows ≡ false
    → save_result db r now ≡ ok db
unfolding save_result
save_result_finished db r now h = rw h

-- Once a report with status DONE is saved, every later report for the same submission, the same
-- or another, changes nothing: rows, test rows and cache.
pub save_result-final :
    (db db' : Db) (r : SubmissionResult) (now : ℤ)
    → r.status ≡ done
    → save_result db r now ≡ ok db'
    → (r' : SubmissionResult) (later : ℤ) → r'.submission_id ≡ r.submission_id
    → save_result db' r' later ≡ ok db'
save_result-final db db' r now d s r' later e =
    save_result_finished db' r' later (rw e (save_result-finishes db db' r now d s))

-- The statements that change the tables.
pub data Step (db db' : Db) : Type 0 where
  mark : (id runner : String) (attempt : ℤ) → db' ≡ mark_judging db id runner attempt → Step db db'
  save : (r : SubmissionResult) (now : ℤ) → save_result db r now ≡ ok db' → Step db db'
  bump : (id : String) (n : ℤ) → bump_attempt db id ≡ ok (db', n) → Step db db'
  create :
      (s : NewSubmission) (id : String) (now : ℤ) (x : Row)
      → create_submission db s id now ≡ ok (db', x)
      → Step db db'
  put : (key : String) (r : SubmissionResult) → db' ≡ put_cached_verdict db key r → Step db db'

pub data Reach (db : Db) : Db → Type 0 where
  here : Reach db db
  next : {db' db'' : Db} → Reach db db' → Step db' db'' → Reach db db''

-- The row of a submission, all but its attempt counter.
abbrev pub Keeps : String → Row → Db → Type 0
Keeps id x db = (n : ℤ) × (row_of db id ≡ some (record x { attempt = n }))

open_done : (s : Status) → is_done s ≡ true → is_open s ≡ false
unfolding is_done is_open
open_done s h = ground arith

unfinished_done : (id : String) (x : Row) → is_done x.status ≡ true → is_unfinished id x ≡ false
unfolding is_unfinished
unfinished_done id x h = ground arith

keep_mark :
    (db : Db) (id : String) (x : Row) (i runner : String) (attempt : ℤ)
    → row_of db id ≡ some x
    → is_done x.status ≡ true
    → row_of (mark_judging db i runner attempt) id ≡ some x
unfolding mark_judging
keep_mark db id x i runner attempt e d =
    find_row-update _ _ id db.rows x (λ y. refl) e ∙ ground (arith, open_done x.status)

keep_save :
    (db db' : Db) (id : String) (x : Row) (r : SubmissionResult) (now : ℤ)
    → row_of db id ≡ some x
    → is_done x.status ≡ true
    → save_result db r now ≡ ok db'
    → row_of db' id ≡ some x
unfolding save_result
keep_save db db' id x r now e d s = ground (
  arith,
  find_row-update (is_unfinished r.submission_id) (finish_row r now) id db.rows x
      (λ y. unfold finish_row in refl) e,
  unfinished_done r.submission_id x,
)

keep_bump :
    (db db' : Db) (id : String) (x : Row) (i : String) (n : ℤ)
    → row_of db id ≡ some x
    → bump_attempt db i ≡ ok (db', n)
    → Keeps id x db'
unfolding bump_attempt
keep_bump db db' id x i n e s = (
  if has_id i x then x.attempt +ℤ pos 1 else x.attempt,
  ground (
    arith,
    find_row-update (has_id i) (λ y. record y { attempt = y.attempt +ℤ pos 1 }) id db.rows x
        (λ y. refl) e,
  ),
)

keep_create :
    (db db' : Db) (id : String) (x y : Row) (s : NewSubmission) (i : String) (now : ℤ)
    → row_of db id ≡ some x
    → create_submission db s i now ≡ ok (db', y)
    → row_of db' id ≡ some x
unfolding create_submission
keep_create db db' id x y s i now e h =
    ground (arith, find_row-append (has_id id) db.rows (new_row s i now ∷ []) x e)

keep_put :
    (db : Db) (id : String) (x : Row) (key : String) (r : SubmissionResult)
    → row_of db id ≡ some x
    → row_of (put_cached_verdict db key r) id ≡ some x
unfolding put_cached_verdict
keep_put db id x key r e = ground arith

Step-Keeps :
    {db db' : Db} (id : String) (x : Row)
    → is_done x.status ≡ true
    → Step db db'
    → Keeps id x db
    → Keeps id x db'
Step-Keeps {db} id x d (mark i runner attempt h) (n, e) =
    (n, ap (λ t. row_of t id) h ∙ keep_mark db id (record x { attempt = n }) i runner attempt e d)
Step-Keeps {db} {db'} id x d (save r now h) (n, e) =
    (n, keep_save db db' id (record x { attempt = n }) r now e d h)
Step-Keeps {db} {db'} id x d (bump i m h) (n, e) =
    keep_bump db db' id (record x { attempt = n }) i m e h
Step-Keeps {db} {db'} id x d (create s i now y h) (n, e) =
    (n, keep_create db db' id (record x { attempt = n }) y s i now e h)
Step-Keeps {db} id x d (put key r h) (n, e) =
    (n, ap (λ t. row_of t id) h ∙ keep_put db id (record x { attempt = n }) key r e)

-- From the moment a submission is DONE, no sequence of statements (later reports, a runner that
-- starts it again, the reconciler, new submissions, the cache) changes its row, but for the
-- attempt counter: the verdict that a participant has seen is final.
pub Reach-Keeps :
    {db db' : Db} (id : String) (x : Row)
    → row_of db id ≡ some x
    → is_done x.status ≡ true
    → Reach db db'
    → Keeps id x db'
Reach-Keeps id x e d here = (x.attempt, e)
Reach-Keeps id x e d (next r st) = Step-Keeps id x d st (Reach-Keeps id x e d r)

pub rows-put :
    (db : Db) (key : String) (r : SubmissionResult) → (put_cached_verdict db key r).rows ≡ db.rows
unfolding put_cached_verdict
rows-put db key r = ground arith

-- The cache keeps the first result of a key.
pub put-put :
    (db : Db) (key : String) (r r' : SubmissionResult)
    → put_cached_verdict (put_cached_verdict db key r) key r' ≡ put_cached_verdict db key r
unfolding put_cached_verdict
put-put db key r r' = ground (arith, str_eq_iff key key)
