-- ===== src/Queue/Once.antt =====
-- Messages of the queue over any sequence of calls by any runners.
use arena.Common.{
  ℤ, String, str_eq_iff, true, false, ◌≡◌, refl, ap, sym, subst, ◌∙◌, Option, none, some, List, [],
  ◌∷◌, ◌++◌, All, arith, pos,
}
use Prim.Native.String.{◌++◌ as str_append}
use arena.Core.Job.{JobSpec}
use arena.Queue.Streams.{
  PendingEntry, Reply, reply, nil_reply, error_reply, Message, Redis, IsRedis, has_member,
  IsDistinct, message_ids,
}
use arena.Queue.{
  Json, Queue, Delivery, raw_job, decode, decode_messages, create_group, publish, consume, consumed,
  heartbeat, ack, nack, claim, claim_of, claim_answer, published, add_job, bury, reclaim,
  reclaim_live, reclaim_dead, reclaimed, attempts_of, dead_ids, live_ids,
}

abbrev pub delivered_ids : {F : Type 0} → List (Delivery F) → List String
delivered_ids [] = []
delivered_ids (d ∷ ds) = d.message_id ∷ delivered_ids ds

-- The calls of the queue's interface that change Redis.
pub data Call (F : Type 0) : Type 0 where
  start_call : Call F
  publish_call : JobSpec F → Call F
  consume_call : String → ℤ → ℤ → Call F
  heartbeat_call : String → List String → Call F
  ack_call : List String → Call F
  nack_call : List String → Call F
  reclaim_call : String → ℤ → ℤ → Call F

has_member-delivered :
    {F : Type 0}
    → (xs ys : List (Delivery F)) (id : String) → has_member id (delivered_ids xs) ≡ false
    → has_member id (delivered_ids ys) ≡ false
    → has_member id (delivered_ids (xs ++ ys)) ≡ false
has_member-delivered [] ys id h k = k
has_member-delivered (x ∷ xs) ys id h k = ground (arith, has_member-delivered xs ys id)

module _ {F : Type 0} (json : Json F) (r : Redis) (q : Queue) where
  open r use {State}

  -- A call, with what `Consume` delivers.
  unfoldable pub step : State → Call F → State × List (Delivery F)
  unfolding create_group publish consume heartbeat ack nack reclaim
  step s start_call = ((create_group json r q s).0, [])
  step s (publish_call job) = ((publish json r q s job).0, [])
  step s (consume_call c n block) = let (s', ds, e) = consume json r q s c n block in (s', ds)
  step s (heartbeat_call c ids) = ((heartbeat json r q s c ids).0, [])
  step s (ack_call ids) = ((ack json r q s ids).0, [])
  step s (nack_call ids) = ((nack json r q s ids).0, [])
  step s (reclaim_call c min_idle max_attempts) =
      ((reclaim json r q s c min_idle max_attempts).0, [])

  unfoldable pub run_calls : State → List (Call F) → State × List (Delivery F)
  unfolding step
  run_calls s [] = (s, [])
  run_calls s (c ∷ cs) =
      let (s', ds) = step s c in let (s'', rest) = run_calls s' cs in (s'', ds ++ rest)

  abbrev Was : State → String → Type 0
  Was s id = r.is_delivered s q.stream q.group id ≡ true

  module _ (h : IsRedis r) where
    create_group-keeps : (s : State) (id : String) → Was s id → Was (create_group json r q s).0 id
    unfolding create_group
    create_group-keeps s id w =
        ground (arith, h.create_keeps s q.stream q.group q.stream q.group id w)

    publish-keeps :
        (s : State) (job : JobSpec F) (id : String) → Was s id → Was (publish json r q s job).0 id
    unfolding publish
    publish-keeps s job id w = kept (json.marshal job)
      where
        kept : (o : Option String) → Was (published json r q s o).0 id
        kept none = w
        kept (some b) = h.add_keeps s q.stream q.group id q.stream q.max_len (("job", b) ∷ []) w

    consume-keeps :
        (s : State) (c : String) (n block : ℤ) (id : String)
        → Was s id
        → Was (consume json r q s c n block).0 id
    unfolding consume
    consume-keeps s c n block id w =
        kept (r.xreadgroup s q.stream q.group c n block)
          (h.read_keeps s q.stream q.group id q.stream q.group c n block w)
      where
        kept :
            (p : State × Reply (List (List Message))) → Was p.0 id → Was (consumed json r q p).0 id
        kept (s, reply res) w = w
        kept (s, nil_reply) w = w
        kept (s, error_reply e) w =
            ground (arith, h.create_keeps s q.stream q.group q.stream q.group id w)

    heartbeat-keeps :
        (s : State) (c : String) (ids : List String) (id : String)
        → Was s id
        → Was (heartbeat json r q s c ids).0 id
    unfolding heartbeat
    heartbeat-keeps s c [] id w = w
    heartbeat-keeps s c (i ∷ ids) id w = h.claim_keeps s q.stream q.group id _ w

    ack-keeps :
        (s : State) (ids : List String) (id : String) → Was s id → Was (ack json r q s ids).0 id
    unfolding ack
    ack-keeps s [] id w = w
    ack-keeps s (i ∷ ids) id w = h.ack_keeps s q.stream q.group id q.stream q.group (i ∷ ids) w

    nack-keeps :
        (s : State) (ids : List String) (id : String) → Was s id → Was (nack json r q s ids).0 id
    unfolding nack
    nack-keeps s [] id w = w
    nack-keeps s (i ∷ ids) id w = h.claim_keeps s q.stream q.group id _ w

    claim-keeps :
        (s : State) (to : String) (min_idle : ℤ) (attempts : String → ℤ) (ids : List String)
        (id : String)
        → Was s id
        → Was (claim json r q s to min_idle attempts ids).0 id
    unfolding claim
    claim-keeps s to min_idle attempts [] id w = w
    claim-keeps s to min_idle attempts (i ∷ ids) id w =
        kept (r.xclaim s (claim_of json r q to min_idle (i ∷ ids)))
          (h.claim_keeps s q.stream q.group id (claim_of json r q to min_idle (i ∷ ids)) w)
      where
        kept :
            (p : State × Reply (List Message))
            → Was p.0 id
            → Was (claim_answer json r q attempts p).0 id
        kept (s, reply ms) w = w
        kept (s, nil_reply) w = w
        kept (s, error_reply e) w = w

    bury-keeps :
        (dead : List (Delivery F)) (s : State) (id : String)
        → Was s id
        → Was (bury json r q s dead) id
    unfolding bury
    bury-keeps [] s id w = w
    bury-keeps (d ∷ dead) s id w =
        bury-keeps dead _ id (h.add_keeps s q.stream q.group id q.dlq (pos 10000) _ w)

    reclaim_dead-keeps :
        (live : List (Delivery F)) (p : State × (List (Delivery F) × List String × Option String))
        (id : String)
        → Was p.0 id
        → Was (reclaim_dead json r q live p).0 id
    reclaim_dead-keeps live (s, (dead, ids, some e)) id w = w
    reclaim_dead-keeps live (s, (dead, ids, none)) id w = bury-keeps dead s id w

    reclaim_live-keeps :
        (c : String) (min_idle : ℤ) (attempts : String → ℤ) (dead : List String)
        (p : State × (List (Delivery F) × List String × Option String)) (id : String)
        → Was p.0 id
        → Was (reclaim_live json r q c min_idle attempts dead p).0 id
    reclaim_live-keeps c min_idle attempts dead (s, (live, ids, some e)) id w = w
    reclaim_live-keeps c min_idle attempts dead (s, (live, ids, none)) id w =
        reclaim_dead-keeps live
          (claim json r q s (str_append c "-dlq") min_idle attempts (dead ++ ids)) id
          (claim-keeps s (str_append c "-dlq") min_idle attempts (dead ++ ids) id w)

    pub reclaim-keeps :
        (s : State) (c : String) (min_idle max_attempts : ℤ) (id : String)
        → Was s id
        → Was (reclaim json r q s c min_idle max_attempts).0 id
    unfolding reclaim
    reclaim-keeps s c min_idle max_attempts id w =
        kept (r.xpending s q.stream q.group min_idle (pos 64))
      where
        kept :
            (rep : Reply (List PendingEntry))
            → Was (reclaimed json r q s c min_idle max_attempts rep).0 id
        kept nil_reply = w
        kept (error_reply e) = w
        kept (reply []) = w
        kept (reply (p ∷ pend)) =
            reclaim_live-keeps c min_idle (attempts_of (p ∷ pend))
              (dead_ids (p ∷ pend) max_attempts)
              (claim json r q s c min_idle (attempts_of (p ∷ pend))
                (live_ids (p ∷ pend) max_attempts))
              id
              (claim-keeps s c min_idle (attempts_of (p ∷ pend)) (live_ids (p ∷ pend) max_attempts)
                id w)

    -- No call takes back that a message was delivered.
    pub step-keeps : (s : State) (call : Call F) (id : String) → Was s id → Was (step s call).0 id
    unfolding step
    step-keeps s start_call id w = create_group-keeps s id w
    step-keeps s (publish_call job) id w = publish-keeps s job id w
    step-keeps s (consume_call c n block) id w = consume-keeps s c n block id w
    step-keeps s (heartbeat_call c ids) id w = heartbeat-keeps s c ids id w
    step-keeps s (ack_call ids) id w = ack-keeps s ids id w
    step-keeps s (nack_call ids) id w = nack-keeps s ids id w
    step-keeps s (reclaim_call c min_idle max_attempts) id w =
        reclaim-keeps s c min_idle max_attempts id w

    -- What a call delivers was not delivered before, is from then on, and stands there once.
    abbrev Fresh : State → State → List (Delivery F) → Type 0
    Fresh s s' ds =
        All (λ d. (r.is_delivered s q.stream q.group d.message_id ≡ false) × Was s' d.message_id) ds
        × IsDistinct (delivered_ids ds)

    has_member-decode_messages :
        (ms : List Message) (id : String)
        → has_member id (message_ids ms) ≡ false
        → has_member id (delivered_ids (decode_messages json ms)) ≡ false
    unfolding decode_messages
    has_member-decode_messages [] id e = refl
    has_member-decode_messages (m ∷ ms) id e = ground (arith, has_member-decode_messages ms id)

    decode_messages-Fresh :
        (s s' : State) (ms : List Message)
        → All (λ m. (r.is_delivered s q.stream q.group m.id ≡ false) × Was s' m.id) ms
        → IsDistinct (message_ids ms)
        → Fresh s s' (decode_messages json ms)
    unfolding decode_messages
    decode_messages-Fresh s s' [] a d = (tt, tt)
    decode_messages-Fresh s s' (m ∷ ms) (a, rest) (d, ds) =
        added (json.unmarshal (raw_job m)) (decode_messages-Fresh s s' ms rest ds)
      where
        added :
            (o : Option (JobSpec F))
            → Fresh s s' (decode_messages json ms)
            → Fresh s s' (add_job json m o (decode_messages json ms))
        added none f = f
        added (some job) (f, g) = ((a, f), (has_member-decode_messages ms m.id d, g))

    decode_one : (ms : List Message) → decode json (ms ∷ []) ≡ decode_messages json ms
    unfolding decode
    decode_one ms = append_nil (decode_messages json ms)
      where
        append_nil : (ds : List (Delivery F)) → ds ++ [] ≡ ds
        append_nil [] = refl
        append_nil (d ∷ ds) = ap (λ rest. d ∷ rest) (append_nil ds)

    consumed-error : (s : State) (e : String) → (consumed json r q (s, error_reply e)).1 ≡ []
    consumed-error s e = ground arith

    consume-Fresh :
        (s : State) (c : String) (n block : ℤ)
        → Fresh s (consume json r q s c n block).0 (consume json r q s c n block).1
    unfolding consume
    consume-Fresh s c n block = fresh (r.xreadgroup s q.stream q.group c n block) refl
      where
        fresh :
            (p : State × Reply (List (List Message)))
            → r.xreadgroup s q.stream q.group c n block ≡ p
            → Fresh s (consumed json r q p).0 (consumed json r q p).1
        fresh (s', reply res) e =
            let (ms, one) = h.read_one s s' q.stream q.group c n block res e in
            let read = e ∙ ap (λ b. (s', reply b)) one in
            subst (Fresh s s') (sym (ap (decode json) one ∙ decode_one ms)) (
              decode_messages-Fresh s s' ms (h.read_new s s' q.stream q.group c n block ms read)
                (h.read_distinct s s' q.stream q.group c n block ms read))
        fresh (s', nil_reply) e = (tt, tt)
        fresh (s', error_reply er) e =
            subst (Fresh s (consumed json r q (s', error_reply er)).0) (sym (consumed-error s' er))
              (tt, tt)

    step-Fresh : (s : State) (call : Call F) → Fresh s (step s call).0 (step s call).1
    unfolding step
    step-Fresh s start_call = (tt, tt)
    step-Fresh s (publish_call job) = (tt, tt)
    step-Fresh s (consume_call c n block) = consume-Fresh s c n block
    step-Fresh s (heartbeat_call c ids) = (tt, tt)
    step-Fresh s (ack_call ids) = (tt, tt)
    step-Fresh s (nack_call ids) = (tt, tt)
    step-Fresh s (reclaim_call c min_idle max_attempts) = (tt, tt)

    -- A message that the group was given before is delivered by no later call.
    pub run_calls-gone :
        (s : State) (calls : List (Call F)) (id : String)
        → Was s id
        → has_member id (delivered_ids (run_calls s calls).1) ≡ false
    unfolding run_calls
    run_calls-gone s [] id w = refl
    run_calls-gone s (c ∷ cs) id w =
        has_member-delivered (step s c).1 _ id (not_fresh (step s c).1 (step-Fresh s c).0)
          (run_calls-gone (step s c).0 cs id (step-keeps s c id w))
      where
        not_fresh :
            (ds : List (Delivery F))
            → All
                (λ d.
                  (r.is_delivered s q.stream q.group d.message_id ≡ false)
                  × Was (step s c).0 d.message_id)
                ds
            → has_member id (delivered_ids ds) ≡ false
        not_fresh [] a = refl
        not_fresh (d ∷ ds) ((f, g), rest) =
            ground (arith, not_fresh ds rest, str_eq_iff d.message_id id)
