-- ===== src/Api/Submit/Outcome.antt =====
-- What each answer of `handleSubmit` leaves behind.
use arena.Common.{
  ℕ, String, Bool, true, false, ltb, length, ◌≡◌, refl, Option, none, some, List, [], ◌∷◌, arith,
  Bool-cases, Option-cases, ◌⊎◌, inl, inr,
}
use arena.Core.Limits.{Multiplier}
use arena.Core.Job.{TestRef}
use arena.Langs.Manifest.{Manifest}
use arena.Langs.Registry.{get}
use arena.Store.{Row, find_by_idempotency_key}
use arena.Api.World.{Problem, World, Server}
use arena.Api.Submit.{
  SubmitRequest, Outside, existing, rejected, max_source_bytes, is_blank, unix_lines, has_blob,
  store_source, source_ref, hash_of, create, submit_to, submit_once, handle_submit,
}
use arena.Api.Submit.Created.{SameState, Outcome, becomes, create-outcome}

module _ (fl : Multiplier) (srv : Server fl) where
  open fl use {Float}

  store_source-SameState :
      (w w' : World Float) (ref : String) (source : List ℕ) (can_store : Bool)
      → store_source w ref source can_store ≡ some w'
      → SameState w w'
  unfolding store_source
  store_source-SameState w w' ref source can_store e = elim (Bool-cases (has_blob ref w.blobs)) [
    | inl there ↦ (ground arith, ground arith, ground arith, ground arith)
    | inr new ↦ (ground arith, ground arith, ground arith, ground arith)
  ]

  List-cases :
      (ts : List TestRef) → (ts ≡ []) ⊎ ((t : TestRef) × (us : List TestRef) × (ts ≡ t ∷ us))
  List-cases [] = inl refl
  List-cases (t ∷ us) = inr (t, us, refl)

  module _ (w : World Float) (req : SubmitRequest) (m : Manifest Float) (out : Outside) where
    module _ (p : Problem Float) where
      submit_to-untested : srv.tests p.id ≡ [] → submit_to fl srv w req m p out ≡ (w, rejected 503)
      unfolding submit_to
      submit_to-untested e = ground arith

      abbrev storing : Option (World Float)
      storing =
          store_source w (source_ref (hash_of fl srv req)) (unix_lines req.source) out.can_store

      module _ (t : TestRef) (ts : List TestRef) (e : srv.tests p.id ≡ t ∷ ts) where
        submit_to-unstored : storing ≡ none → submit_to fl srv w req m p out ≡ (w, rejected 500)
        unfolding submit_to
        submit_to-unstored f = ground arith

        submit_to-create :
            (v : World Float)
            → storing ≡ some v
            → submit_to fl srv w req m p out ≡ create fl srv v req m p out
        unfolding submit_to
        submit_to-create v f = ground arith

      submit_to-outcome :
          get srv.langs req.language ≡ some m
          → srv.problem req.problem ≡ some p
          → Outcome fl srv w req out (submit_to fl srv w req m p out)
      submit_to-outcome g h = elim (List-cases (srv.tests p.id)) [
        | inl e ↦ becomes fl srv w req out (submit_to-untested e) (refl, refl, refl, refl)
        | inr (t, ts, e) ↦ elim (Option-cases storing) [
          | inl f ↦ becomes fl srv w req out (submit_to-unstored t ts e f) (refl, refl, refl, refl)
          | inr (v, f) ↦
              becomes fl srv w req out (submit_to-create t ts e v f)
                (create-outcome fl srv w v req m p out (store_source-SameState w v _ _ _ f) g h)
        ]
      ]

    module _ (f : find_by_idempotency_key w.db req.user_id req.idempotency_key ≡ none) where
      submit_once-unknown :
          srv.problem req.problem ≡ none → submit_once fl srv w req m out ≡ (w, rejected 404)
      unfolding submit_once
      submit_once-unknown h = ground arith

      submit_once-submit_to :
          (p : Problem Float)
          → srv.problem req.problem ≡ some p
          → submit_once fl srv w req m out ≡ submit_to fl srv w req m p out
      unfolding submit_once
      submit_once-submit_to p h = ground arith

    pub submit_once-existing :
        (sub : Row)
        → find_by_idempotency_key w.db req.user_id req.idempotency_key ≡ some sub
        → submit_once fl srv w req m out ≡ (w, existing sub)
    unfolding submit_once
    submit_once-existing sub e = ground arith

    submit_once-outcome :
        get srv.langs req.language ≡ some m
        → Outcome fl srv w req out (submit_once fl srv w req m out)
    submit_once-outcome g =
        elim (Option-cases (find_by_idempotency_key w.db req.user_id req.idempotency_key)) [
          | inr (sub, e) ↦
              becomes fl srv w req out (submit_once-existing sub e) ((refl, refl, refl, refl), e)
          | inl e ↦ elim (Option-cases (srv.problem req.problem)) [
            | inl h ↦ becomes fl srv w req out (submit_once-unknown e h) (refl, refl, refl, refl)
            | inr (p, h) ↦
                becomes fl srv w req out (submit_once-submit_to e p h) (submit_to-outcome p g h)
          ]
        ]

  -- A request that passes the four checks in front of the idempotency key.
  abbrev pub Passes : SubmitRequest → Manifest Float → Outside → Type 0
  Passes req m out =
      (is_blank req.source ≡ false)
      × (ltb max_source_bytes (length req.source) ≡ false)
      × (get srv.langs req.language ≡ some m)
      × (out.allowed ≡ true)

  pub handle_submit-once :
      (w : World Float) (req : SubmitRequest) (m : Manifest Float) (out : Outside)
      → Passes req m out
      → handle_submit fl srv w (some req) out ≡ submit_once fl srv w req m out
  unfolding handle_submit
  handle_submit-once w req m out (b, l, g, a) = ground arith

  handle_submit-checked :
      (w : World Float) (req : SubmitRequest) (out : Outside)
      → ((m : Manifest Float) × Passes req m out)
        ⊎ ((status : ℕ) × (handle_submit fl srv w (some req) out ≡ (w, rejected status)))
  unfolding handle_submit
  handle_submit-checked w req out = elim (Bool-cases (is_blank req.source)) [
    | inl b ↦ inr (400, ground arith)
    | inr b ↦ elim (Bool-cases (ltb max_source_bytes (length req.source))) [
      | inl l ↦ inr (413, ground arith)
      | inr l ↦ elim (Option-cases (get srv.langs req.language)) [
        | inl g ↦ inr (400, ground arith)
        | inr (m, g) ↦ elim (Bool-cases out.allowed) [
          | inl a ↦ inl (m, (b, l, g, a))
          | inr a ↦ inr (429, ground arith)
        ]
      ]
    ]
  ]

  -- Every answer to a request, whose body is JSON, tells what it did. An error leaves all tables,
  -- boards, queue and events as they were, and so does a known idempotency key, whose row it
  -- returns. A 202 has inserted one row, with the generated id, and published its first job if the
  -- queue answers, and no board moved. A replayed verdict has inserted one row as well and finished it
  -- with the result that the verdict cache holds for the request, as `SaveResult` does; no other row
  -- has changed, the answer is the row, and the queue is as it was.
  pub handle_submit-outcome :
      (w : World Float) (req : SubmitRequest) (out : Outside)
      → Outcome fl srv w req out (handle_submit fl srv w (some req) out)
  handle_submit-outcome w req out = elim (handle_submit-checked w req out) [
    | inl (m, c) ↦
        becomes fl srv w req out (handle_submit-once w req m out c)
          (submit_once-outcome w req m out c.2)
    | inr (status, e) ↦ becomes fl srv w req out e (refl, refl, refl, refl)
  ]
