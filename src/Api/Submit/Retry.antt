-- ===== src/Api/Submit/Retry.antt =====
-- A request that a client sends again.
use mathlib.Core.Path.{ap₂}
use arena.Common.{
  ℤ, pos, ◌+ℤ◌, String, str_eq_iff, Bool, true, false, ◌&&◌, ◌≡◌, ◌≢◌, refl, sym, ap, ◌∙◌, some,
  List, [], ◌∷◌, ◌++◌, if◌then◌else◌, arith, Bool-cases, inl, inr, subst,
}
use arena.Core.Limits.{Multiplier}
use arena.Core.Verdict.{judging}
use arena.Core.Job.{SubmissionResult}
use arena.Langs.Manifest.{Manifest}
use arena.Store.{
  Row, Db, ok, update_rows, any_row, find_row, has_id, has_key, is_open, is_unfinished,
  mark_judging, finish_row, save_result, bump_attempt, NewSubmission, null_str, new_row,
  create_submission, find_by_idempotency_key,
}
use arena.Store.Rows.{find_row-append}
use arena.Store.Final.{rows-put, Step, mark, save, bump, create, put, Reach, here, next}
use arena.Api.World.{World, Server}
use arena.Api.Submit.{SubmitRequest, Outside, existing, accepted, handle_submit, new_submission}
use arena.Api.Submit.Created.{Outcome}
use arena.Api.Submit.Outcome.{
  Passes, handle_submit-once, submit_once-existing, handle_submit-outcome,
}

-- The key of a participant names the submission with an id.
abbrev pub Names : Db → String → String → String → Type 0
Names db user key id = (x : Row) × (find_row (has_key user key) db.rows ≡ some x) × (x.id ≡ id)

find_row-update_key :
    (w : Row → Bool) (f : Row → Row) (user key : String) (rows : List Row) (x : Row)
    → ((y : Row) → has_key user key (f y) ≡ has_key user key y)
    → find_row (has_key user key) rows ≡ some x
    → find_row (has_key user key) (update_rows w f rows) ≡ some (if w x then f x else x)
unfolding find_row update_rows
find_row-update_key w f user key [] x h e = cc
find_row-update_key w f user key (y ∷ rows) x h e =
    ground (arith, h y, find_row-update_key w f user key rows x h)

Names-update :
    (w : Row → Bool) (f : Row → Row) (user key id : String) (db db' : Db)
    → ((y : Row) → has_key user key (f y) ≡ has_key user key y)
    → ((y : Row) → (f y).id ≡ y.id)
    → db'.rows ≡ update_rows w f db.rows
    → Names db user key id
    → Names db' user key id
Names-update w f user key id db db' h k e (x, found, i) = (
  if w x then f x else x,
  ap (find_row (has_key user key)) e ∙ find_row-update_key w f user key db.rows x h found,
  ground (arith, k x),
)

Names-save :
    (db db' : Db) (r : SubmissionResult) (now : ℤ) (user key id : String)
    → save_result db r now ≡ ok db'
    → Names db user key id
    → Names db' user key id
unfolding save_result
Names-save db db' r now user key id s n =
    elim (Bool-cases (any_row (is_unfinished r.submission_id) db.rows)) [
      | inl e ↦
          Names-update (is_unfinished r.submission_id) (finish_row r now) user key id db db'
            (λ y. unfold finish_row in refl) (λ y. unfold finish_row in refl) (ground arith) n
      | inr e ↦ let same : db ≡ db' = ground arith in subst (λ d. Names d user key id) same n
    ]

Names-create :
    (db db' : Db) (s : NewSubmission) (i : String) (now : ℤ) (y : Row) (user key id : String)
    → create_submission db s i now ≡ ok (db', y)
    → Names db user key id
    → Names db' user key id
unfolding create_submission
Names-create db db' s i now y user key id h (x, found, e) = (
  x,
  ground (arith, find_row-append (has_key user key) db.rows (new_row s i now ∷ []) x found),
  e,
)

Names-bump :
    (db db' : Db) (i : String) (n : ℤ) (user key id : String)
    → bump_attempt db i ≡ ok (db', n)
    → Names db user key id
    → Names db' user key id
unfolding bump_attempt
Names-bump db db' i n user key id s names =
    Names-update (has_id i) (λ y. record y { attempt = y.attempt +ℤ pos 1 }) user key id db db'
      (λ y. refl) (λ y. refl) (ground arith) names

Names-Step :
    {db db' : Db} (user key id : String)
    → Step db db'
    → Names db user key id
    → Names db' user key id
Names-Step {db} {db'} user key id (mark i runner attempt h) n =
    Names-update (λ x. has_id i x && is_open x.status)
      (λ x. record x { status = judging; runner_id = runner; attempt = attempt }) user key id db db'
      (λ y. refl) (λ y. refl) (unfold mark_judging in ap (λ d. d.rows) h) n
Names-Step {db} {db'} user key id (save r now h) n = Names-save db db' r now user key id h n
Names-Step {db} {db'} user key id (bump i m h) n = Names-bump db db' i m user key id h n
Names-Step {db} {db'} user key id (create s i now y h) n =
    Names-create db db' s i now y user key id h n
Names-Step {db} {db'} user key id (put k r h) (x, found, e) = (
  x,
  ap (λ d. find_row (has_key user key) d.rows) h
      ∙ ap (find_row (has_key user key)) (rows-put db k r)
      ∙ found,
  e,
)

Names-Reach :
    {db db' : Db} (user key id : String)
    → Names db user key id
    → Reach db db'
    → Names db' user key id
Names-Reach user key id n here = n
Names-Reach user key id n (next r st) = Names-Step user key id st (Names-Reach user key id n r)

find_row-fresh :
    (w : Row → Bool) (rows : List Row) (x : Row)
    → any_row w rows ≡ false
    → w x ≡ true
    → find_row w (rows ++ x ∷ []) ≡ some x
unfolding find_row any_row
find_row-fresh w [] x h e = ground arith
find_row-fresh w (y ∷ rows) x h e = ground (arith, find_row-fresh w rows x)

new_row_named :
    (s : NewSubmission) (i : String) (now : ℤ)
    → s.idempotency_key ≢ ""
    → has_key s.user_id s.idempotency_key (new_row s i now) ≡ true
unfolding new_row null_str
new_row_named s i now k = ground (
  arith,
  str_eq_iff s.idempotency_key "",
  str_eq_iff s.user_id s.user_id,
  str_eq_iff s.idempotency_key s.idempotency_key,
)

create_submission-Names :
    (db db' : Db) (s : NewSubmission) (i : String) (now : ℤ) (y : Row)
    → s.idempotency_key ≢ ""
    → create_submission db s i now ≡ ok (db', y)
    → Names db' s.user_id s.idempotency_key i
unfolding create_submission
create_submission-Names db db' s i now y k h = (
  new_row s i now,
  ground (
    arith,
    find_row-fresh (has_key s.user_id s.idempotency_key) db.rows (new_row s i now),
    new_row_named s i now k,
    str_eq_iff s.idempotency_key "",
  ),
  unfold new_row in refl,
)

find_by_idempotency_key-found :
    (db : Db) (user key : String) (x : Row)
    → key ≢ ""
    → find_row (has_key user key) db.rows ≡ some x
    → find_by_idempotency_key db user key ≡ some x
unfolding find_by_idempotency_key
find_by_idempotency_key-found db user key x k e = ground (arith, str_eq_iff key "")

module _ (fl : Multiplier) (srv : Server fl) where
  open fl use {Float}

  accepted-Names :
      (w w1 : World Float) (req : SubmitRequest) (out : Outside) (id : String)
      → req.idempotency_key ≢ ""
      → Outcome fl srv w req out (w1, accepted id)
      → Names w1.db req.user_id req.idempotency_key id
  unfolding new_submission
  accepted-Names w w1 req out id k (same, m, p, sub, (g, h, c), q, b, e) =
      subst (Names w1.db req.user_id req.idempotency_key) (sym same) (
        create_submission-Names w.db w1.db (new_submission fl srv req m p) out.new_id out.now sub k
          c)

  -- A request with an idempotency key that was answered 202, sent again by the same participant
  -- however many statements later, is answered with the row of the first submission and creates
  -- nothing, publishes nothing and moves no board: as long as the second one, whatever its source
  -- and problem are, passes the checks and the rate limiter.
  pub handle_submit-retry :
      (w w1 w2 : World Float) (req again : SubmitRequest) (m : Manifest Float) (out later : Outside)
      (id : String)
      → req.idempotency_key ≢ ""
      → handle_submit fl srv w (some req) out ≡ (w1, accepted id)
      → Reach w1.db w2.db
      → again.user_id ≡ req.user_id
      → again.idempotency_key ≡ req.idempotency_key
      → Passes fl srv again m later
      → (sub : Row) × (handle_submit fl srv w2 (some again) later ≡ (w2, existing sub))
        × (sub.id ≡ id)
  handle_submit-retry w w1 w2 req again m out later id k a r u i c =
      let first =
        accepted-Names w w1 req out id k
          (subst (Outcome fl srv w req out) a (handle_submit-outcome fl srv w req out)) in
      let (sub, found, same) = Names-Reach req.user_id req.idempotency_key id first r in
      (
        sub,
        handle_submit-once fl srv w2 again m later c
            ∙ submit_once-existing fl srv w2 again m later sub (
                ap₂ (find_by_idempotency_key w2.db) u i
                ∙ find_by_idempotency_key-found w2.db req.user_id req.idempotency_key sub k found),
        same,
      )
