-- ===== src/Api/Submit/Created.antt =====
-- What `handleSubmit` leaves behind once it inserts a row.
use arena.Common.{
  ◌≡◌, refl, sym, ap, ◌∙◌, Option, none, some, [], ◌∷◌, ◌++◌, if◌then◌else◌, arith, Bool-cases,
  Option-cases, subst, str_eq_iff, ℤ, inl, inr, true, Bool, List, String,
}
use arena.Core.Limits.{Multiplier}
use arena.Core.Verdict.{is_done}
use arena.Core.Job.{SubmissionResult}
use arena.Langs.Manifest.{Manifest, job_limits}
use arena.Langs.Registry.{get}
use arena.Store.{
  Row, Db, DbResult, ok, refused, create_submission, find_by_idempotency_key, cached_verdict,
  save_result, NewSubmission, any_row, new_row, is_unfinished, finish_row, update_rows,
  put_cached_verdict,
}
use arena.Store.Rows.{DbResult-cases, row_of}
use arena.Api.World.{Problem, World, Server}
use arena.Api.Result.{publish_event, set_board, cache_verdict, move_board, after_verdict}
use arena.Api.Reconciler.{publish_job}
use arena.Api.Submit.{
  SubmitRequest, Outside, Answer, existing, replayed, accepted, rejected, hash_of, answer_existing,
  new_submission, first_job, enqueue, cached_result, replay, replay_saved, judge, create,
}

-- The same tables, boards, queue and events; a source may have been stored.
abbrev pub SameState : {F : Type 0} → World F → World F → Type 0
SameState w w' =
    (w'.db ≡ w.db) × (w'.boards ≡ w.boards) × (w'.queue ≡ w.queue) × (w'.events ≡ w.events)

module _ (fl : Multiplier) (srv : Server fl) where
  open fl use {Float}

  -- The tables hold one row more, that of the request.
  abbrev pub Created :
      World Float → SubmitRequest → Manifest Float → Problem Float → Outside → Db → Row → Type 0
  Created w req m p out db sub =
      (get srv.langs req.language ≡ some m)
      × (srv.problem req.problem ≡ some p)
      × (create_submission w.db (new_submission fl srv req m p) out.new_id out.now ≡ ok (db, sub))

  -- The key of the request in the verdict cache.
  abbrev pub key_of : SubmitRequest → Manifest Float → Problem Float → String
  key_of req m p =
      srv.cache_key (hash_of fl srv req) m.id m.image p.testdata_version (job_limits fl m p.limits)

  -- The rows are those of the insertion, of which the new one alone holds a cached verdict.
  abbrev pub Replayed : Outside → Row → Db → SubmissionResult → Db → Option Row → Type 0
  Replayed out sub db c after row =
      (row ≡ row_of after sub.id)
      × (after.rows
          ≡ update_rows (is_unfinished out.new_id) (finish_row (cached_result fl srv c out) out.now)
              db.rows)

  abbrev pub Outcome : World Float → SubmitRequest → Outside → World Float × Answer → Type 0
  Outcome w req out (w', rejected status) = SameState w w'
  Outcome w req out (w', existing sub) =
      SameState w w' × (find_by_idempotency_key w.db req.user_id req.idempotency_key ≡ some sub)
  Outcome w req out (w', accepted id) =
      (id ≡ out.new_id)
      × (m : Manifest Float) × (p : Problem Float) × (sub : Row) × Created w req m p out w'.db sub
      × (w'.queue
          ≡ (if out.queue_up then w.queue ++ first_job fl srv req m p out ∷ [] else w.queue))
      × (w'.boards ≡ w.boards)
      × (w'.events ≡ w.events)
  Outcome w req out (w', replayed row) =
      (m : Manifest Float) × (p : Problem Float) × (sub : Row) × (db : Db) × Created w req m p out
        db sub
      × (c : SubmissionResult) × (cached_verdict db (key_of req m p) ≡ some c)
      × Replayed out sub db c w'.db row
      × (w'.queue ≡ w.queue)

  after_verdict-queue :
      (w : World Float) (sub : Row) (res : SubmissionResult) (p : Problem Float)
      → (after_verdict fl srv w sub res p).queue ≡ w.queue
  unfolding after_verdict cache_verdict move_board publish_event set_board
  after_verdict-queue w sub res p = ground arith

  after_verdict-rows :
      (w : World Float) (sub : Row) (res : SubmissionResult) (p : Problem Float)
      → (after_verdict fl srv w sub res p).db.rows ≡ w.db.rows
  unfolding after_verdict cache_verdict move_board publish_event set_board put_cached_verdict
  after_verdict-rows w sub res p = ground arith

  any_row-last :
      (test : Row → Bool) (rows : List Row) (x : Row)
      → test x ≡ true
      → any_row test (rows ++ x ∷ []) ≡ true
  unfolding any_row
  any_row-last test [] x h = rw h refl
  any_row-last test (y ∷ rows) x h = ground (arith, any_row-last test rows x h)

  created_rows :
      (d : Db) (new : NewSubmission) (id : String) (now : ℤ) (db : Db) (sub : Row)
      → create_submission d new id now ≡ ok (db, sub)
      → db.rows ≡ d.rows ++ new_row new id now ∷ []
  unfolding create_submission
  created_rows d new id now db sub e = ground (arith, e)

  pub becomes :
      (w : World Float) (req : SubmitRequest) (out : Outside) {r r' : World Float × Answer}
      → r ≡ r'
      → Outcome w req out r'
      → Outcome w req out r
  becomes w req out e o = subst (Outcome w req out) (sym e) o

  -- The world behind the insertion: `v` is the request's, or that with its source stored.
  abbrev inserted : World Float → Db → World Float
  inserted v db = record v { db = db }

  module _ (w v : World Float) (req : SubmitRequest) (m : Manifest Float) (p : Problem Float)
      (out : Outside) (s : SameState w v) where
    module _ (db : Db) (sub : Row) (k : Created w req m p out db sub) where
      enqueue-outcome : Outcome w req out (enqueue fl srv (inserted v db) req m p out)
      unfolding enqueue publish_job
      enqueue-outcome =
          let (d, b, q, e) = s in
          elim (Bool-cases out.queue_up) [
            | inl up ↦ rw up (refl, m, p, sub, k, rw q refl, b, e)
            | inr down ↦ rw down (refl, m, p, sub, k, q, b, e)
          ]

      inserted_unfinished : any_row (is_unfinished out.new_id) db.rows ≡ true
      unfolding new_row is_unfinished is_done
      inserted_unfinished =
          let last = new_row (new_submission fl srv req m p) out.new_id out.now in
          let rows : db.rows ≡ w.db.rows ++ last ∷ [] =
            created_rows w.db (new_submission fl srv req m p) out.new_id out.now db sub k.2 in
          rw rows (
            any_row-last (is_unfinished out.new_id) w.db.rows last
              (ground (arith, str_eq_iff out.new_id out.new_id)))

      saved_rows :
          (c : SubmissionResult) (db' : Db)
          → save_result db (cached_result fl srv c out) out.now ≡ ok db'
          → db'.rows
            ≡ update_rows
                (is_unfinished out.new_id)
                (finish_row (cached_result fl srv c out) out.now)
                db.rows
      unfolding save_result
      saved_rows c db' e = ground (arith, inserted_unfinished, e)

      replay_saved-outcome :
          (c : SubmissionResult) (r : DbResult Db)
          → cached_verdict db (key_of req m p) ≡ some c
          → save_result db (cached_result fl srv c out) out.now ≡ r
          → Outcome w req out
              (replay_saved fl srv (inserted v db) req m p out sub (cached_result fl srv c out) r)
      unfolding replay_saved
      replay_saved-outcome c refused hit e = enqueue-outcome
      replay_saved-outcome c (ok db') hit e = (
        m,
        p,
        sub,
        db,
        k,
        c,
        hit,
        (
          refl,
          after_verdict-rows (inserted v db') sub (cached_result fl srv c out) p
              ∙ saved_rows c db' e,
        ),
        after_verdict-queue (inserted v db') sub (cached_result fl srv c out) p ∙ s.2,
      )

      replay-outcome :
          (c : SubmissionResult)
          → cached_verdict db (key_of req m p) ≡ some c
          → Outcome w req out (replay fl srv (inserted v db) req m p out sub c)
      unfolding replay
      replay-outcome c hit =
          replay_saved-outcome c (save_result db (cached_result fl srv c out) out.now) hit refl

      judge-enqueue :
          cached_verdict db (key_of req m p) ≡ none
          → judge fl srv (inserted v db) req m p out sub
            ≡ enqueue fl srv (inserted v db) req m p out
      unfolding judge
      judge-enqueue e = ground arith

      judge-replay :
          (c : SubmissionResult)
          → cached_verdict db (key_of req m p) ≡ some c
          → judge fl srv (inserted v db) req m p out sub
            ≡ replay fl srv (inserted v db) req m p out sub c
      unfolding judge
      judge-replay c e = ground arith

      judge-outcome : Outcome w req out (judge fl srv (inserted v db) req m p out sub)
      judge-outcome = elim (Option-cases (cached_verdict db (key_of req m p))) [
        | inl e ↦ becomes w req out (judge-enqueue e) enqueue-outcome
        | inr (c, e) ↦ becomes w req out (judge-replay c e) (replay-outcome c e)
      ]

    create-refused :
        create_submission v.db (new_submission fl srv req m p) out.new_id out.now ≡ refused
        → create fl srv v req m p out
          ≡ answer_existing v
              (rejected 500)
              (find_by_idempotency_key v.db req.user_id req.idempotency_key)
    unfolding create
    create-refused e = ground arith

    create-judge :
        (db : Db) (sub : Row)
        → create_submission v.db (new_submission fl srv req m p) out.new_id out.now ≡ ok (db, sub)
        → create fl srv v req m p out ≡ judge fl srv (inserted v db) req m p out sub
    unfolding create
    create-judge db sub e = ground arith

    same_existing :
        (o : Option Row)
        → find_by_idempotency_key w.db req.user_id req.idempotency_key ≡ o
        → Outcome w req out (answer_existing v (rejected 500) o)
    same_existing none e = s
    same_existing (some sub) e = (s, e)

    pub create-outcome :
        get srv.langs req.language ≡ some m
        → srv.problem req.problem ≡ some p
        → Outcome w req out (create fl srv v req m p out)
    create-outcome g h =
        elim (DbResult-cases
          (create_submission v.db (new_submission fl srv req m p) out.new_id out.now)) [
            | inl e ↦ becomes w req out (create-refused e) (
                same_existing _
                  (ap (λ d. find_by_idempotency_key d req.user_id req.idempotency_key) (sym s.0)))
            | inr ((db, sub), e) ↦ becomes w req out (create-judge db sub e) (
                judge-outcome db sub (
                  g,
                  h,
                  ap (λ d. create_submission d (new_submission fl srv req m p) out.new_id out.now)
                        (sym s.0)
                      ∙ e,
                ))
          ]
