-- ===== src/Queue/Reclaimed.antt =====
-- What `Reclaim` hands out, and what becomes of it.
mod Attempts
use arena.Common.{
  ℤ, ◌+ℤ◌, ◌≤ℤ◌, ◌<ℤ◌, pos, String, str_eq, str_eq_iff, true, false, ◌≡◌, refl, ap, sym, subst, ◌∙◌,
  Option, none, some, List, [], ◌∷◌, ◌++◌, All, arith, int_laws, inl, inr, Option-cases, Bool-cases,
  ◌⊎◌, if◌then◌else◌,
}
use Prim.Native.String.{◌++◌ as str_append}
use arena.Core.Job.{JobSpec}
use arena.Queue.Streams.{
  PendingEntry, Reply, reply, nil_reply, error_reply, Message, Redis, IsRedis, has_member,
  IsDistinct, pending_ids,
}
use arena.Queue.Once.{Call, run_calls, run_calls-gone, reclaim-keeps, delivered_ids}
use arena.Queue.{
  Json, Queue, Delivery, raw_job, add_claimed, claimed, unparsed, claim, claim_of, claim_answer,
  reclaim, reclaim_live, reclaim_dead, reclaimed, Reclaim, attempts_of, attempts_from, dead_ids,
  live_ids,
}
use arena.Queue.Reclaimed.Attempts.{
  has_member-split, attempts_from-old, live_ids-pending, dead_ids-pending, live_ids-below,
  dead_ids-above,
}

module _ {F : Type 0} (json : Json F) (r : Redis) (q : Queue) where
  open r use {State}

  abbrev HoldsNoJob : State → String → Type 0
  HoldsNoJob s id =
      (m : Message) × (r.entry s q.stream id ≡ some m) × (json.unmarshal (raw_job m) ≡ none)

  -- A delivery of a message out of `ids` that was delivered before and that holds the job, with the next attempt.
  abbrev Handed : State → (String → ℤ) → List String → Delivery F → Type 0
  Handed s attempts ids d =
      (r.is_delivered s q.stream q.group d.message_id ≡ true)
      × (has_member d.message_id ids ≡ true)
      × ((m : Message) × (job : JobSpec F) × (r.entry s q.stream d.message_id ≡ some m)
          × (json.unmarshal (raw_job m) ≡ some job)
          × (d.job ≡ record job { attempt = attempts d.message_id +ℤ pos 1 }))

  abbrev Asked : State → List String → Message → Type 0
  Asked s ids m =
      (has_member m.id ids ≡ true)
      × (r.is_delivered s q.stream q.group m.id ≡ true)
      × (r.entry s q.stream m.id ≡ some m)

  claimed-Handed :
      (s s' : State) (attempts : String → ℤ) (ids : List String) (ms : List Message)
      → All (Asked s ids) ms
      → All (Handed s attempts ids) (claimed json attempts ms)
  unfolding claimed
  claimed-Handed s s' attempts ids [] a = tt
  claimed-Handed s s' attempts ids (m ∷ ms) ((i, w, e), rest) =
      added (json.unmarshal (raw_job m)) refl (claimed-Handed s s' attempts ids ms rest)
    where
      added :
          (o : Option (JobSpec F))
          → json.unmarshal (raw_job m) ≡ o
          → All (Handed s attempts ids) (claimed json attempts ms)
          → All (Handed s attempts ids) (add_claimed json attempts m o (claimed json attempts ms))
      added none f later = later
      added (some job) f later = ((w, i, (m, job, e, f, refl)), later)

  unparsed-HoldsNoJob :
      (s : State) (ids : List String) (ms : List Message) (id : String)
      → All (Asked s ids) ms
      → has_member id (unparsed json ms) ≡ true
      → HoldsNoJob s id
  unfolding unparsed
  unparsed-HoldsNoJob s ids [] id a h = absurd (ground arith)
  unparsed-HoldsNoJob s ids (m ∷ ms) id ((i, w, e), rest) h =
      elim (Option-cases (json.unmarshal (raw_job m))) [
        | inr (job, f) ↦ unparsed-HoldsNoJob s ids ms id rest (ground arith)
        | inl f ↦ elim (Bool-cases (str_eq m.id id)) [
          | inl k ↦ (m, ap (r.entry s q.stream) (sym ((str_eq_iff m.id id).0 k)) ∙ e, f)
          | inr k ↦ unparsed-HoldsNoJob s ids ms id rest (ground arith)
        ]
      ]

  module _ (h : IsRedis r) where
    claim-Handed :
        (s : State) (to : String) (min_idle : ℤ) (attempts : String → ℤ) (ids : List String)
        → All (Handed s attempts ids) (claim json r q s to min_idle attempts ids).1.0
          × ((id : String)
              → has_member id (claim json r q s to min_idle attempts ids).1.1 ≡ true
              → HoldsNoJob s id)
          × ((id : String)
              → r.entry (claim json r q s to min_idle attempts ids).0 q.stream id
                ≡ r.entry s q.stream id)
    unfolding claim
    claim-Handed s to min_idle attempts [] = (tt, (λ id e. absurd (ground arith)), λ id. refl)
    claim-Handed s to min_idle attempts (i ∷ ids) =
        handed (r.xclaim s (claim_of json r q to min_idle (i ∷ ids))) refl
          (λ id. h.claim_entry s q.stream id (claim_of json r q to min_idle (i ∷ ids)))
      where
        handed :
            (p : State × Reply (List Message))
            → r.xclaim s (claim_of json r q to min_idle (i ∷ ids)) ≡ p
            → ((id : String) → r.entry p.0 q.stream id ≡ r.entry s q.stream id)
            → All (Handed s attempts (i ∷ ids)) (claim_answer json r q attempts p).1.0
              × ((id : String)
                  → has_member id (claim_answer json r q attempts p).1.1 ≡ true
                  → HoldsNoJob s id)
              × ((id : String)
                  → r.entry (claim_answer json r q attempts p).0 q.stream id
                    ≡ r.entry s q.stream id)
        handed (s', reply ms) e k =
            let asked = h.claim_asked s s' (claim_of json r q to min_idle (i ∷ ids)) ms e in
            (
              claimed-Handed s s' attempts (i ∷ ids) ms asked,
              (λ id b. unparsed-HoldsNoJob s (i ∷ ids) ms id asked b),
              k,
            )
        handed (s', nil_reply) e k = (tt, (λ id b. absurd (ground arith)), k)
        handed (s', error_reply er) e k = (tt, (λ id b. absurd (ground arith)), k)

    -- A delivery of a message that holds a job, which is handed out with an attempt that has `P`.
    abbrev pub HandsOut : State → (ℤ → Type 0) → Delivery F → Type 0
    HandsOut s P d =
        ((m : Message) × (job : JobSpec F) × (r.entry s q.stream d.message_id ≡ some m)
          × (json.unmarshal (raw_job m) ≡ some job)
          × (d.job ≡ record job { attempt = d.job.attempt }))
        × P d.job.attempt

    Handed-HandsOut :
        (s s' : State) (attempts : String → ℤ) (ids : List String) (P : ℤ → Type 0)
        (ds : List (Delivery F))
        → ((id : String) → r.entry s' q.stream id ≡ r.entry s q.stream id)
        → ((id : String) (m : Message) (job : JobSpec F)
            → has_member id ids ≡ true
            → r.entry s q.stream id ≡ some m
            → json.unmarshal (raw_job m) ≡ some job
            → P (attempts id +ℤ pos 1))
        → All (Handed s' attempts ids) ds
        → All (HandsOut s P) ds
    Handed-HandsOut s s' attempts ids P [] k f a = tt
    Handed-HandsOut s s' attempts ids P (d ∷ ds) k f ((w, i, (m, job, e, u, j)), rest) =
        let same = sym (ap (λ x. x.attempt) j) in
        let here = sym (k d.message_id) ∙ e in
        (
          (
            (m, job, here, u, j ∙ ap (λ n. record job { attempt = n }) same),
            subst P same (f d.message_id m job i here u),
          ),
          Handed-HandsOut s s' attempts ids P ds k f rest,
        )

    -- The live deliveries have `P` and the dead ones `Q`.
    abbrev pub Sorted : (P Q : Delivery F → Type 0) → Reclaim F → Type 0
    Sorted P Q rec = All P rec.live × All Q rec.dead

    reclaim_dead-Sorted :
        (P Q : Delivery F → Type 0) (live : List (Delivery F))
        (p : State × (List (Delivery F) × List String × Option String))
        → All P live
        → All Q p.1.0
        → Sorted P Q (reclaim_dead json r q live p).1
    reclaim_dead-Sorted P Q live (s', (dead, ids, some e)) a b = (a, tt)
    reclaim_dead-Sorted P Q live (s', (dead, ids, none)) a b = (a, b)

    dead_bound :
        (s : State) (pend : List PendingEntry) (n : ℤ) (bad : List String)
        → IsDistinct (pending_ids pend)
        → ((id : String) → has_member id bad ≡ true → HoldsNoJob s id)
        → (id : String) (m : Message) (job : JobSpec F)
        → has_member id (dead_ids pend n ++ bad) ≡ true
        → r.entry s q.stream id ≡ some m
        → json.unmarshal (raw_job m) ≡ some job
        → n <ℤ attempts_of pend id +ℤ pos 1
    dead_bound s pend n bad d b id m job i e u =
        elim (has_member-split id (dead_ids pend n) bad i) [
          | inl k ↦ omega (int_laws, dead_ids-above (λ id. pos 0) pend n id d k)
          | inr k ↦ let (m', e', u') = b id k in absurd (cc)
        ]

    reclaim_live-Sorted :
        (s : State) (c : String) (min_idle n : ℤ) (pend : List PendingEntry)
        (p : State × (List (Delivery F) × List String × Option String))
        → IsDistinct (pending_ids pend)
        → All (HandsOut s (λ a. a ≤ℤ n)) p.1.0
        → ((id : String) → has_member id p.1.1 ≡ true → HoldsNoJob s id)
        → ((id : String) → r.entry p.0 q.stream id ≡ r.entry s q.stream id)
        → Sorted
            (HandsOut s (λ a. a ≤ℤ n))
            (HandsOut s (λ a. n <ℤ a))
            (reclaim_live json r q c min_idle (attempts_of pend) (dead_ids pend n) p).1
    reclaim_live-Sorted s c min_idle n pend (s1, (live, bad, some e)) d a b k = (tt, tt)
    reclaim_live-Sorted s c min_idle n pend (s1, (live, bad, none)) d a b k =
        let dead = dead_ids pend n ++ bad in
        let to = str_append c "-dlq" in
        reclaim_dead-Sorted (HandsOut s (λ a. a ≤ℤ n)) (HandsOut s (λ a. n <ℤ a)) live
          (claim json r q s1 to min_idle (attempts_of pend) dead) a
          (Handed-HandsOut s s1 (attempts_of pend) dead (λ a. n <ℤ a)
            (claim json r q s1 to min_idle (attempts_of pend) dead).1.0 k
            (dead_bound s pend n bad d b) (claim-Handed s1 to min_idle (attempts_of pend) dead).0)

    -- What `Reclaim` hands out, at whatever time: each delivery is of a message of the stream that
    -- holds the job, which is changed in the attempt only. A live one has at most the allowed number
    -- of attempts, this one included; a dead one has more.
    pub reclaim-Sorted :
        (s : State) (c : String) (min_idle n : ℤ)
        → Sorted
            (HandsOut s (λ a. a ≤ℤ n))
            (HandsOut s (λ a. n <ℤ a))
            (reclaim json r q s c min_idle n).1
    unfolding reclaim
    reclaim-Sorted s c min_idle n = sorted (r.xpending s q.stream q.group min_idle (pos 64)) refl
      where
        sorted :
            (rep : Reply (List PendingEntry))
            → r.xpending s q.stream q.group min_idle (pos 64) ≡ rep
            → Sorted
                (HandsOut s (λ a. a ≤ℤ n))
                (HandsOut s (λ a. n <ℤ a))
                (reclaimed json r q s c min_idle n rep).1
        sorted nil_reply e = (tt, tt)
        sorted (error_reply er) e = (tt, tt)
        sorted (reply []) e = (tt, tt)
        sorted (reply (p ∷ pend)) e =
            let d = h.pending_distinct s q.stream q.group min_idle (pos 64) (p ∷ pend) e in
            let ids = live_ids (p ∷ pend) n in
            let (a, b, k) = claim-Handed s c min_idle (attempts_of (p ∷ pend)) ids in
            reclaim_live-Sorted s c min_idle n (p ∷ pend)
              (claim json r q s c min_idle (attempts_of (p ∷ pend)) ids) d
              (Handed-HandsOut s s (attempts_of (p ∷ pend)) ids (λ a. a ≤ℤ n)
                (claim json r q s c min_idle (attempts_of (p ∷ pend)) ids).1.0 (λ id. refl)
                (λ id m job i en u.
                  omega (int_laws, live_ids-below (λ id. pos 0) (p ∷ pend) n id d i))
                a)
              b k

    All-no_job :
        (s : State) (P : ℤ → Type 0) (ds : List (Delivery F)) (id : String)
        → HoldsNoJob s id
        → All (HandsOut s P) ds
        → has_member id (delivered_ids ds) ≡ false
    All-no_job s P [] id b a = refl
    All-no_job s P (d ∷ ds) id (m, e, u) (((m', job, e', u', j), p), rest) =
        elim (Bool-cases (str_eq d.message_id id)) [
          | inl k ↦
              let same = ap (r.entry s q.stream) ((str_eq_iff d.message_id id).0 k) in absurd (cc)
          | inr k ↦ rw k (All-no_job s P ds id (m, e, u) rest)
        ]

    -- A message that holds no job is handed out by no `Reclaim`, neither live nor dead, however often
    -- it was delivered.
    pub reclaim-no_job :
        (s : State) (c : String) (min_idle n : ℤ) (id : String) (m : Message)
        → r.entry s q.stream id ≡ some m
        → json.unmarshal (raw_job m) ≡ none
        → (has_member id (delivered_ids (reclaim json r q s c min_idle n).1.live) ≡ false)
          × (has_member id (delivered_ids (reclaim json r q s c min_idle n).1.dead) ≡ false)
    reclaim-no_job s c min_idle n id m e u =
        let (a, b) = reclaim-Sorted s c min_idle n in
        (
          All-no_job s (λ a. a ≤ℤ n) (reclaim json r q s c min_idle n).1.live id (m, e, u) a,
          All-no_job s (λ a. n <ℤ a) (reclaim json r q s c min_idle n).1.dead id (m, e, u) b,
        )

    abbrev WasGiven : State → Delivery F → Type 0
    WasGiven s d = r.is_delivered s q.stream q.group d.message_id ≡ true

    Handed-WasGiven :
        (s : State) (attempts : String → ℤ) (ids : List String) (ds : List (Delivery F))
        → All (Handed s attempts ids) ds
        → All (WasGiven s) ds
    Handed-WasGiven s attempts ids [] a = tt
    Handed-WasGiven s attempts ids (d ∷ ds) ((w, i, more), rest) =
        (w, Handed-WasGiven s attempts ids ds rest)

    reclaim_live-WasGiven :
        (s : State) (c : String) (min_idle : ℤ) (attempts : String → ℤ) (dead : List String)
        (p : State × (List (Delivery F) × List String × Option String))
        → All (WasGiven s) p.1.0
        → All (WasGiven s) (reclaim_live json r q c min_idle attempts dead p).1.live
    reclaim_live-WasGiven s c min_idle attempts dead (s1, (live, bad, some e)) a = tt
    reclaim_live-WasGiven s c min_idle attempts dead (s1, (live, bad, none)) a =
        given (claim json r q s1 (str_append c "-dlq") min_idle attempts (dead ++ bad))
      where
        given :
            (p : State × (List (Delivery F) × List String × Option String))
            → All (WasGiven s) (reclaim_dead json r q live p).1.live
        given (s2, (ds, ids, some e)) = a
        given (s2, (ds, ids, none)) = a

    reclaim-WasGiven :
        (s : State) (c : String) (min_idle n : ℤ)
        → All (WasGiven s) (reclaim json r q s c min_idle n).1.live
    unfolding reclaim
    reclaim-WasGiven s c min_idle n = given (r.xpending s q.stream q.group min_idle (pos 64))
      where
        given :
            (rep : Reply (List PendingEntry))
            → All (WasGiven s) (reclaimed json r q s c min_idle n rep).1.live
        given nil_reply = tt
        given (error_reply er) = tt
        given (reply []) = tt
        given (reply (p ∷ pend)) =
            let attempts = attempts_of (p ∷ pend) in
            let ids = live_ids (p ∷ pend) n in
            reclaim_live-WasGiven s c min_idle attempts (dead_ids (p ∷ pend) n)
              (claim json r q s c min_idle attempts ids)
              (Handed-WasGiven s attempts ids (claim json r q s c min_idle attempts ids).1.0
                (claim-Handed s c min_idle attempts ids).0)

    -- A live delivery of `Reclaim` is never delivered by `Consume` after it, to no runner, whatever
    -- the calls are.
    pub reclaim-gone :
        (s : State) (c : String) (min_idle n : ℤ) (calls : List (Call F))
        → All
            (λ d.
              has_member d.message_id
                (delivered_ids (run_calls json r q (reclaim json r q s c min_idle n).0 calls).1)
              ≡ false)
            (reclaim json r q s c min_idle n).1.live
    reclaim-gone s c min_idle n calls =
        gone (reclaim json r q s c min_idle n).1.live (reclaim-WasGiven s c min_idle n)
      where
        gone :
            (ds : List (Delivery F))
            → All (WasGiven s) ds
            → All
                (λ d.
                  has_member d.message_id
                    (delivered_ids (run_calls json r q (reclaim json r q s c min_idle n).0 calls).1)
                  ≡ false)
                ds
        gone [] a = tt
        gone (d ∷ ds) (w, a) = (
          run_calls-gone json r q h (reclaim json r q s c min_idle n).0 calls d.message_id
              (reclaim-keeps json r q h s c min_idle n d.message_id w),
          gone ds a,
        )
