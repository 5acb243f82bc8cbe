-- ===== src/Queue/Examples.antt =====
-- A small Redis with the documented behaviour, and the queue's theorems on it.
use arena.Common.{
  ℤ, pos, ◌≤ℤ◌, ◌<ℤ◌, String, str_eq, Bool, true, false, ◌&&◌, ◌≡◌, refl, sym, subst, Option, none,
  some, List, [], ◌∷◌, All, arith, if◌then◌else◌,
}
use arena.Judge.Examples.{job}
use arena.Queue.Streams.{
  Reply, reply, nil_reply, error_reply, Message, PendingEntry, Redis, IsRedis, has_member,
  IsDistinct, message_ids, pending_ids,
}
use arena.Queue.Once.{Call, consume_call, reclaim_call, run_calls, step, delivered_ids}
use arena.Queue.Reclaimed.{Sorted, HandsOut, reclaim-Sorted, reclaim-no_job, reclaim-gone}
use arena.Queue.{
  Json, Queue, queue_of, consume, reclaim, decode, decode_messages, claim, claimed, unparsed,
  live_ids, dead_ids, attempts_from, bury,
}

abbrev pub job_json : Json ℤ
job_json = record {
  marshal = λ j. some "job";
  unmarshal = λ raw. if str_eq raw "job" then some job else none;
}

abbrev first_message : Message
first_message = record { id = "1-0"; job = some "job" }

abbrev garbage : Message
garbage = record { id = "2-0"; job = some "{" }

-- Which of two messages were delivered.
abbrev Seen : Type 0
Seen = Bool × Bool

abbrev seen : Seen → String → Bool
seen (a, b) id = if str_eq id "1-0" then a else if str_eq id "2-0" then b else false

abbrev picked : Bool → Message → List Message → List Message
picked b m rest = if b then m ∷ rest else rest

abbrev listed : Bool → PendingEntry → List PendingEntry → List PendingEntry
listed b p rest = if b then p ∷ rest else rest

abbrev next_message : Seen → Seen × Reply (List (List Message))
next_message (false, b) = ((true, b), reply ((first_message ∷ []) ∷ []))
next_message (true, false) = ((true, true), reply ((garbage ∷ []) ∷ []))
next_message (true, true) = ((true, true), nil_reply)

abbrev entry_at : String → Option Message
entry_at id =
    if str_eq id "1-0" then some first_message else if str_eq id "2-0" then some garbage else none

abbrev picked_messages : Seen → List String → List Message
picked_messages (a, b) asked =
    picked (a && has_member "1-0" asked) first_message
      (picked (b && has_member "2-0" asked) garbage [])

abbrev listed_entries : Seen → List PendingEntry
listed_entries (a, b) =
    listed a (record { id = "1-0"; retry_count = pos 1 })
      (listed b (record { id = "2-0"; retry_count = pos 4 }) [])

-- A Redis whose memory is full: it refuses new entries.
abbrev pub two_messages : Redis
two_messages = record {
  State = Seen;
  xgroup_create = λ s st g. (s, error_reply "BUSYGROUP Consumer Group name already exists");
  xadd = λ s st n values. (s, error_reply "OOM command not allowed");
  xreadgroup = λ s st g c n block. next_message s;
  xclaim = λ s c. (s, reply (picked_messages s c.messages));
  xack_xdel = λ s st g ids. (s, reply "OK");
  xpending = λ s st g min_idle n. reply (listed_entries s);
  xpending_count = λ s st g. reply (pos 2);
  xinfo_groups = λ s st. reply [];
  is_nogroup = λ e. false;
  is_delivered = λ s st g id. seen s id;
  entry = λ s st id. entry_at id;
}

next_message-seen :
    (s s' : Seen) (res : List (List Message))
    → next_message s ≡ (s', reply res)
    → (m : Message) × (res ≡ (m ∷ []) ∷ []) × (seen s m.id ≡ false) × (seen s' m.id ≡ true)
next_message-seen (false, b) s' res e = (first_message, ground arith, refl, ground arith)
next_message-seen (true, false) s' res e = (garbage, ground arith, refl, ground arith)
next_message-seen (true, true) s' res e = absurd (ground arith)

next_message_keeps : (s : Seen) (id : String) → seen s id ≡ true → seen (next_message s).0 id ≡ true
next_message_keeps (false, b) id w = ground arith
next_message_keeps (true, false) id w = ground arith
next_message_keeps (true, true) id w = ground arith

only_message :
    (s s' : Seen) (ms : List Message)
    → next_message s ≡ (s', reply (ms ∷ []))
    → (m : Message) × (ms ≡ m ∷ []) × (seen s m.id ≡ false) × (seen s' m.id ≡ true)
only_message s s' ms e =
    let (m, f, old, new) = next_message-seen s s' (ms ∷ []) e in (m, ground arith, old, new)

picked-asked :
    (s : Seen) (asked : List String)
    → All
        (λ m. (has_member m.id asked ≡ true) × (seen s m.id ≡ true) × (entry_at m.id ≡ some m))
        (picked_messages s asked)
picked-asked (a, b) asked =
    first (a && has_member "1-0" asked) (ground arith)
      (second (b && has_member "2-0" asked) (ground arith))
  where
    Asked : Message → Type 0
    Asked m = (has_member m.id asked ≡ true) × (seen (a, b) m.id ≡ true) × (entry_at m.id ≡ some m)

    second :
        (p : Bool)
        → (p ≡ true → (has_member "2-0" asked ≡ true) × (b ≡ true))
        → All Asked (picked p garbage [])
    second true h = (((h refl).0, (h refl).1, refl), tt)
    second false h = tt

    first :
        (p : Bool)
        → (p ≡ true → (has_member "1-0" asked ≡ true) × (a ≡ true))
        → All Asked (picked (b && has_member "2-0" asked) garbage [])
        → All Asked (picked p first_message (picked (b && has_member "2-0" asked) garbage []))
    first true h rest = (((h refl).0, (h refl).1, refl), rest)
    first false h rest = rest

listed-IsDistinct : (s : Seen) → IsDistinct (pending_ids (listed_entries s))
listed-IsDistinct (true, true) = (refl, (refl, tt))
listed-IsDistinct (true, false) = (refl, tt)
listed-IsDistinct (false, true) = (refl, tt)
listed-IsDistinct (false, false) = tt

two_messages-IsRedis : IsRedis two_messages
two_messages-IsRedis = record {
  create_keeps = λ s st g st' g' id w. w;
  add_keeps = λ s st g id st' n values w. w;
  read_keeps = λ s st g id st' g' c n block w. next_message_keeps s id w;
  claim_keeps = λ s st g id c w. w;
  ack_keeps = λ s st g id st' g' ids w. w;
  read_new = λ s s' st g c n block ms e.
      let (m, f, old, new) = only_message s s' ms e in
      subst (All (λ m. (seen s m.id ≡ false) × (seen s' m.id ≡ true))) (sym f) ((old, new), tt);
  read_distinct = λ s s' st g c n block ms e.
      let (m, f, old, new) = only_message s s' ms e in
      subst (λ ms. IsDistinct (message_ids ms)) (sym f) (refl, tt);
  read_one = λ s s' st g c n block res e.
      let (m, f, old, new) = next_message-seen s s' res e in (m ∷ [], f);
  claim_asked = λ s s' c ms e.
      subst
        (All (λ m.
          (has_member m.id c.messages ≡ true) × (seen s m.id ≡ true) × (entry_at m.id ≡ some m)))
        (ground arith) (picked-asked s c.messages);
  claim_entry = λ s st id c. refl;
  pending_distinct = λ s st g min_idle n pend e.
      subst (λ p. IsDistinct (pending_ids p)) (ground arith) (listed-IsDistinct s);
}

abbrev pub jobs : Queue
jobs = record {
  stream = "judge.jobs";
  group = "judges";
  dlq = "judge.jobs.dlq";
  max_len = pos 200000;
  lease_ttl = pos 90000000000;
}

defaults : queue_of (record { stream = ""; group = ""; max_len = pos 0; lease_ttl = pos 0 }) ≡ jobs
unfolding queue_of
defaults = refl

abbrev some_calls : List (Call ℤ)
some_calls =
    consume_call "r1" (pos 4) (pos 2000)
    ∷ reclaim_call "r2" (pos 90) (pos 3)
    ∷ consume_call "r2" (pos 4) (pos 2000)
    ∷ consume_call "r1" (pos 4) (pos 2000)
    ∷ []

-- The message that is no job is skipped.
delivered_once :
    delivered_ids (run_calls job_json two_messages jobs (false, false) some_calls).1 ≡ "1-0" ∷ []
unfolding run_calls step consume decode decode_messages reclaim claim claimed unparsed live_ids
    dead_ids attempts_from bury
delivered_once = refl

reclaim-Sorted_example :
    Sorted job_json two_messages jobs two_messages-IsRedis
      (HandsOut job_json two_messages jobs two_messages-IsRedis (true, true) (λ a. a ≤ℤ pos 3))
      (HandsOut job_json two_messages jobs two_messages-IsRedis (true, true) (λ a. pos 3 <ℤ a))
      (reclaim job_json two_messages jobs (true, true) "r2" (pos 90) (pos 3)).1
reclaim-Sorted_example =
    reclaim-Sorted job_json two_messages jobs two_messages-IsRedis (true, true) "r2" (pos 90)
      (pos 3)

reclaim-no_job_example :
    (has_member "2-0" (
        delivered_ids
          (reclaim job_json two_messages jobs (true, true) "r2" (pos 90) (pos 3)).1.live)
      ≡ false)
    × (has_member "2-0" (
          delivered_ids
            (reclaim job_json two_messages jobs (true, true) "r2" (pos 90) (pos 3)).1.dead)
        ≡ false)
reclaim-no_job_example =
    reclaim-no_job job_json two_messages jobs two_messages-IsRedis (true, true) "r2" (pos 90)
      (pos 3) "2-0" garbage refl refl

reclaim-gone_example :
    All
      (λ d.
        has_member d.message_id (
          delivered_ids
            (run_calls job_json two_messages jobs
              (reclaim job_json two_messages jobs (true, true) "r2" (pos 90) (pos 3)).0
              some_calls).1)
        ≡ false)
      (reclaim job_json two_messages jobs (true, true) "r2" (pos 90) (pos 3)).1.live
reclaim-gone_example =
    reclaim-gone job_json two_messages jobs two_messages-IsRedis (true, true) "r2" (pos 90) (pos 3)
      some_calls

still_live :
    delivered_ids (reclaim job_json two_messages jobs (true, true) "r2" (pos 90) (pos 3)).1.live
    ≡ "1-0" ∷ []
unfolding reclaim claim claimed unparsed live_ids dead_ids attempts_from bury
still_live = refl
