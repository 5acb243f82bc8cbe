-- ===== src/Queue.antt =====
-- internal/adapters/redisq/queue.go: jobs on a stream of Redis, leased to the runners. Redis is a
-- parameter; its clock is part of its state, and a context is not cancelled.
pub mod Streams
pub mod Once
pub mod Reclaimed
pub mod Examples
use arena.Common.{
  ℕ, ℤ, pos, ◌+ℤ◌, eqb_ℤ, leb_ℤ, String, str_eq, Bool, true, false, Option, none, some, List, [],
  ◌∷◌, ◌++◌, if◌then◌else◌,
}
use arena.Core.Job.{JobSpec}
use Prim.Native.String.{◌++◌ as str_append}
use Streams.{Reply, reply, nil_reply, error_reply, Message, PendingEntry, Claim, Redis}

-- What `encoding/json` makes of a job.
pub record Json (F : Type 0) : Type 0 where
  pub marshal : JobSpec F → Option String
  pub unmarshal : String → Option (JobSpec F)

pub record Queue : Type 0 where
  pub stream : String
  pub group : String
  pub dlq : String
  pub max_len : ℤ
  pub lease_ttl : ℤ

pub record QueueOpts : Type 0 where
  pub stream : String
  pub group : String
  pub max_len : ℤ
  pub lease_ttl : ℤ

pub record Delivery (F : Type 0) : Type 0 where
  pub message_id : String
  pub job : JobSpec F

-- What `Reclaim` returns; no error is `none`.
pub record Reclaim (F : Type 0) : Type 0 where
  pub live : List (Delivery F)
  pub dead : List (Delivery F)
  pub err : Option String

abbrev pub or_text : String → String → String
or_text s fallback = if str_eq s "" then fallback else s

abbrev pub or_number : ℤ → ℤ → ℤ
or_number n fallback = if eqb_ℤ n (pos 0) then fallback else n

unfoldable pub queue_of : QueueOpts → Queue
queue_of o = record {
  stream = or_text o.stream "judge.jobs";
  group = or_text o.group "judges";
  dlq = str_append (or_text o.stream "judge.jobs") ".dlq";
  max_len = or_number o.max_len (pos 200000);
  lease_ttl = or_number o.lease_ttl (pos 90000000000);
}

-- `raw, _ := m.Values["job"].(string)`
abbrev pub raw_job : Message → String
raw_job m = elim (m.job) [ none ↦ "" | some raw ↦ raw ]

-- An error of a reply, `redis.Nil` included.
abbrev pub error_of : {A : Type 0} → Reply A → Option String
error_of (reply a) = none
error_of nil_reply = some "redis: nil"
error_of (error_reply e) = some e

-- The two lists of ids that `Reclaim` sorts the pending entries into.
unfoldable pub live_ids : List PendingEntry → ℤ → List String
live_ids [] max_attempts = []
live_ids (p ∷ pend) max_attempts =
    let rest = live_ids pend max_attempts in
    if leb_ℤ max_attempts p.retry_count then rest else p.id ∷ rest

unfoldable pub dead_ids : List PendingEntry → ℤ → List String
dead_ids [] max_attempts = []
dead_ids (p ∷ pend) max_attempts =
    let rest = dead_ids pend max_attempts in
    if leb_ℤ max_attempts p.retry_count then p.id ∷ rest else rest

-- `attempts`, a map with 0 where nothing is set.
unfoldable pub attempts_from : (String → ℤ) → List PendingEntry → String → ℤ
attempts_from attempts [] = attempts
attempts_from attempts (p ∷ pend) =
    attempts_from (λ id. if str_eq p.id id then p.retry_count else attempts id) pend

abbrev pub attempts_of : List PendingEntry → String → ℤ
attempts_of pend = attempts_from (λ id. pos 0) pend

module _ {F : Type 0} (json : Json F) where
  abbrev pub add_job : Message → Option (JobSpec F) → List (Delivery F) → List (Delivery F)
  add_job m none rest = rest
  add_job m (some job) rest = record { message_id = m.id; job = job } ∷ rest

  -- The messages of one stream that hold a job.
  unfoldable pub decode_messages : List Message → List (Delivery F)
  decode_messages [] = []
  decode_messages (m ∷ ms) = add_job m (json.unmarshal (raw_job m)) (decode_messages ms)

  unfoldable pub decode : List (List Message) → List (Delivery F)
  unfolding decode_messages
  decode [] = []
  decode (s ∷ res) = decode_messages s ++ decode res

  abbrev pub add_claimed :
      (String → ℤ) → Message → Option (JobSpec F) → List (Delivery F) → List (Delivery F)
  add_claimed attempts m none rest = rest
  add_claimed attempts m (some job) rest =
      record { message_id = m.id; job = record job { attempt = attempts m.id +ℤ pos 1 } } ∷ rest

  -- The loop of `claim` over the messages that XCLAIM returned: the deliveries, and the ids of the
  -- messages that hold no job.
  unfoldable pub claimed : (String → ℤ) → List Message → List (Delivery F)
  claimed attempts [] = []
  claimed attempts (m ∷ ms) =
      add_claimed attempts m (json.unmarshal (raw_job m)) (claimed attempts ms)

  unfoldable pub unparsed : List Message → List String
  unparsed [] = []
  unparsed (m ∷ ms) =
      let rest = unparsed ms in
      elim (json.unmarshal (raw_job m)) [ none ↦ m.id ∷ rest | some job ↦ rest ]

  module _ (r : Redis) (q : Queue) where
    open r use {State}

    -- `NewQueue`, behind its defaults.
    unfoldable pub create_group : State → State × Option String
    create_group s =
        let (s', rep) = r.xgroup_create s q.stream q.group in
        elim rep [
          | reply a ↦ (s', none)
          | nil_reply ↦ (s', none)
          | error_reply e ↦
              (s', if str_eq e "BUSYGROUP Consumer Group name already exists" then none else some e)
        ]

    abbrev pub published : State → Option String → State × Option String
    published s none = (s, some "json")
    published s (some b) =
        let (s', rep) = r.xadd s q.stream q.max_len (("job", b) ∷ []) in (s', error_of rep)

    unfoldable pub publish : State → JobSpec F → State × Option String
    publish s job = published s (json.marshal job)

    abbrev pub consumed :
        State × Reply (List (List Message)) → State × List (Delivery F) × Option String
    consumed (s, reply res) = (s, decode res, none)
    consumed (s, nil_reply) = (s, [], none)
    consumed (s, error_reply e) =
        if r.is_nogroup e
        then (let (s', rep) = r.xgroup_create s q.stream q.group in
            elim rep [
              | reply a ↦ (s', [], none)
              | nil_reply ↦ (s', [], some e)
              | error_reply e' ↦ (s', [], some e)
            ])
        else (s, [], some e)

    unfoldable pub consume : State → String → ℤ → ℤ → State × List (Delivery F) × Option String
    unfolding decode
    consume s consumer n block = consumed (r.xreadgroup s q.stream q.group consumer n block)

    abbrev pub claim_of : String → ℤ → List String → Claim
    claim_of consumer min_idle ids = record {
      stream = q.stream;
      group = q.group;
      consumer = consumer;
      min_idle = min_idle;
      messages = ids;
    }

    unfoldable pub heartbeat : State → String → List String → State × Option String
    heartbeat s consumer [] = (s, none)
    heartbeat s consumer (id ∷ ids) =
        let (s', rep) = r.xclaim s (claim_of consumer (pos 0) (id ∷ ids)) in (s', error_of rep)

    -- XACK and XDEL in one transaction.
    unfoldable pub ack : State → List String → State × Option String
    ack s [] = (s, none)
    ack s (id ∷ ids) =
        let (s', rep) = r.xack_xdel s q.stream q.group (id ∷ ids) in (s', error_of rep)

    unfoldable pub nack : State → List String → State × Option String
    nack s [] = (s, none)
    nack s (id ∷ ids) =
        let (s', rep) = r.xclaim s (claim_of "__nacked__" (pos 0) (id ∷ ids)) in (s', error_of rep)

    abbrev pub claim_answer :
        (String → ℤ)
        → State × Reply (List Message)
        → State × (List (Delivery F) × List String × Option String)
    claim_answer attempts (s, reply ms) = (s, (claimed attempts ms, unparsed ms, none))
    claim_answer attempts (s, nil_reply) = (s, ([], [], some "redis: nil"))
    claim_answer attempts (s, error_reply e) = (s, ([], [], some e))

    -- `claim`, with the ids that it appends to the dead ones.
    unfoldable pub claim :
        State
        → String
        → ℤ
        → (String → ℤ)
        → List String
        → State × (List (Delivery F) × List String × Option String)
    unfolding claimed unparsed
    claim s to min_idle attempts [] = (s, ([], [], none))
    claim s to min_idle attempts (id ∷ ids) =
        claim_answer attempts (r.xclaim s (claim_of to min_idle (id ∷ ids)))

    -- The copies on the dead-letter stream; an error of XADD is dropped.
    unfoldable pub bury : State → List (Delivery F) → State
    bury s [] = s
    bury s (d ∷ dead) =
        bury
          (r.xadd s q.dlq (pos 10000) (
            ("job", elim (json.marshal d.job) [ none ↦ "" | some b ↦ b ])
            ∷ ("reason", "max attempts exceeded")
            ∷ [])).0
          dead

    abbrev pub reclaim_dead :
        List (Delivery F)
        → State × (List (Delivery F) × List String × Option String)
        → State × Reclaim F
    reclaim_dead live (s, (dead, ids, some e)) =
        (s, record { live = live; dead = []; err = some e })
    reclaim_dead live (s, (dead, ids, none)) =
        (bury s dead, record { live = live; dead = dead; err = none })

    abbrev pub reclaim_live :
        String
        → ℤ
        → (String → ℤ)
        → List String
        → State × (List (Delivery F) × List String × Option String)
        → State × Reclaim F
    reclaim_live consumer min_idle attempts dead (s, (live, ids, some e)) =
        (s, record { live = []; dead = []; err = some e })
    reclaim_live consumer min_idle attempts dead (s, (live, ids, none)) =
        reclaim_dead live (claim s (str_append consumer "-dlq") min_idle attempts (dead ++ ids))

    abbrev pub reclaimed : State → String → ℤ → ℤ → Reply (List PendingEntry) → State × Reclaim F
    reclaimed s consumer min_idle max_attempts nil_reply =
        (s, record { live = []; dead = []; err = some "redis: nil" })
    reclaimed s consumer min_idle max_attempts (error_reply e) =
        (s, record { live = []; dead = []; err = some e })
    reclaimed s consumer min_idle max_attempts (reply []) =
        (s, record { live = []; dead = []; err = none })
    reclaimed s consumer min_idle max_attempts (reply (p ∷ pend)) =
        reclaim_live consumer min_idle (attempts_of (p ∷ pend)) (dead_ids (p ∷ pend) max_attempts)
          (claim s consumer min_idle (attempts_of (p ∷ pend)) (live_ids (p ∷ pend) max_attempts))

    unfoldable pub reclaim : State → String → ℤ → ℤ → State × Reclaim F
    unfolding claim live_ids dead_ids attempts_from bury
    reclaim s consumer min_idle max_attempts =
        reclaimed s consumer min_idle max_attempts (r.xpending s q.stream q.group min_idle (pos 64))

    -- The lag of the last group of the name.
    unfoldable pub lag_of : ℤ → List (String × ℤ) → ℤ
    lag_of backlog [] = backlog
    lag_of backlog ((name, lag) ∷ groups) =
        lag_of (if str_eq name q.group then lag else backlog) groups

    abbrev pub backlog_of : Reply (List (String × ℤ)) → ℤ
    backlog_of (reply groups) = lag_of (pos 0) groups
    backlog_of nil_reply = pos 0
    backlog_of (error_reply e) = pos 0

    -- `Depth`: in flight, waiting, and the error.
    unfoldable pub depth : State → ℤ × ℤ × Option String
    unfolding lag_of
    depth s = elim (r.xpending_count s q.stream q.group) [
      | error_reply e ↦ (pos 0, pos 0, some e)
      | nil_reply ↦ (pos 0, backlog_of (r.xinfo_groups s q.stream), none)
      | reply n ↦ (n, backlog_of (r.xinfo_groups s q.stream), none)
    ]
