-- ===== src/Api/SubmitExamples.antt =====
-- Tests of the submission handler and of the reconciler, and their theorems at concrete inputs.
use arena.Common.{ℤ, pos, ◌-ℤ◌, ◌≡◌, ◌⊎◌, refl, true, some, [], ◌∷◌}
use arena.Checker.Scanner.{space_width}
use arena.Langs.Examples.{whole, python}
use arena.Langs.Registry.{get}
use arena.Core.Job.{TestRef}
use arena.Store.{
  Row, any_row, has_id, find_row, is_open, find_by_idempotency_key, create_submission, new_row,
  stuck_submissions, mark_judging, cached_verdict,
}
use arena.Store.Rows.{row_of, IsKeyed}
use arena.Store.Final.{here, next, mark}
use arena.Store.Examples.{queued_row, one_row}
use arena.Api.World.{World, Server}
use arena.Api.Examples.{server, world_of}
use arena.Api.Reconciler.{reconcile_once}
use arena.Api.Reconciler.Ticks.{listed, start, tick, IsWaiting, IsGivenUp, Ticks-gives_up}
use arena.Api.Submit.{
  SubmitRequest, Outside, existing, accepted, is_blank, store_source, judge, enqueue, create,
  submit_to, submit_once, handle_submit,
}
use arena.Api.Submit.Created.{Outcome}
use arena.Api.Submit.Outcome.{handle_submit-outcome}
use arena.Api.Submit.Retry.{handle_submit-retry}

one_row-IsKeyed : IsKeyed one_row.rows
unfolding any_row
one_row-IsKeyed = (refl, tt)

one_row-found : row_of one_row "s1" ≡ some queued_row
unfolding find_row
one_row-found = refl

one_row-listed :
    any_row (has_id "s1") (listed whole server (world_of one_row) (pos 60) (pos 100)) ≡ true
unfolding any_row stuck_submissions is_open ◌-ℤ◌
one_row-listed = refl

row_open : is_open queued_row.status ≡ true
unfolding is_open
row_open = refl

abbrev first_tick : World ℤ
first_tick = reconcile_once whole server (world_of one_row) (pos 60) (pos 100)

Ticks-gives_up_example :
    IsWaiting whole server queued_row 1 first_tick ⊎ IsGivenUp whole server queued_row 1 first_tick
Ticks-gives_up_example =
    Ticks-gives_up whole server queued_row (pos 60) (world_of one_row) first_tick 1 one_row-IsKeyed
      one_row-found row_open (tick start (pos 100) one_row-listed)

abbrev test_one : TestRef
test_one = record {
  index = pos 1;
  input_ref = "in";
  output_ref = "out";
  is_sample = true;
  points = pos 1;
}

abbrev tested : Server whole
tested = record server { tests = λ id. test_one ∷ [] }

abbrev request : SubmitRequest
request = record {
  user_id = "bob";
  problem = "A";
  language = "python";
  source = 112 ∷ 13 ∷ 10 ∷ [];
  idempotency_key = "key";
}

abbrev outside : Outside
outside = record { allowed = true; can_store = true; new_id = "s2"; queue_up = true; now = pos 50 }

handle_submit-outcome_example :
    Outcome whole tested
      (world_of one_row)
      request
      outside
      (handle_submit whole tested (world_of one_row) (some request) outside)
handle_submit-outcome_example =
    handle_submit-outcome whole tested (world_of one_row) request outside

abbrev after_submit : World ℤ
after_submit = (handle_submit whole tested (world_of one_row) (some request) outside).0

first_request :
    handle_submit whole tested (world_of one_row) (some request) outside
    ≡ (after_submit, accepted "s2")
unfolding handle_submit is_blank submit_once find_by_idempotency_key find_row submit_to store_source
    create create_submission any_row new_row judge cached_verdict enqueue get space_width
first_request = refl

abbrev after_mark : World ℤ
after_mark = record after_submit { db = mark_judging after_submit.db "s2" "r1" (pos 1) }

handle_submit-retry_example :
    (sub : Row) × (handle_submit whole tested after_mark
        (some request)
        (record outside { new_id = "s3" })
      ≡ (after_mark, existing sub))
    × (sub.id ≡ "s2")
unfolding is_blank get space_width
handle_submit-retry_example =
    handle_submit-retry whole tested (world_of one_row) after_submit after_mark request request
      python outside (record outside { new_id = "s3" }) "s2" (λ e. cc) first_request
      (next here (mark "s2" "r1" (pos 1) refl)) refl refl (refl, refl, refl, refl)
