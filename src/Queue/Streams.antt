-- ===== src/Queue/Streams.antt =====
-- What internal/adapters/redisq/queue.go asks of Redis: the commands on streams, and the documented
-- behaviour of consumer groups that it relies on.
use arena.Common.{ℤ, String, str_eq, Bool, true, false, ◌||◌, ◌≡◌, Option, some, List, [], ◌∷◌, All}

-- `redis.Nil` is `nil_reply`.
pub data Reply (A : Type 0) : Type 0 where
  reply : A → Reply A
  nil_reply : Reply A
  error_reply : String → Reply A

-- An entry of a stream, with the value under "job".
pub record Message : Type 0 where
  pub id : String
  pub job : Option String

-- An entry of XPENDING.
pub record PendingEntry : Type 0 where
  pub id : String
  pub retry_count : ℤ

-- `redis.XClaimArgs`
pub record Claim : Type 0 where
  pub stream : String
  pub group : String
  pub consumer : String
  pub min_idle : ℤ
  pub messages : List String

pub record Redis : Type 1 where
  pub State : Type 0
  pub xgroup_create : State → String → String → State × Reply String
  pub xadd : State → String → ℤ → List (String × String) → State × Reply String
  pub xreadgroup : State → String → String → String → ℤ → ℤ → State × Reply (List (List Message))
  pub xclaim : State → Claim → State × Reply (List Message)
  pub xack_xdel : State → String → String → List String → State × Reply String
  pub xpending : State → String → String → ℤ → ℤ → Reply (List PendingEntry)
  pub xpending_count : State → String → String → Reply ℤ
  pub xinfo_groups : State → String → Reply (List (String × ℤ))
  -- Whether an error starts with NOGROUP.
  pub is_nogroup : String → Bool
  -- Whether a group of a stream was given the message of an id, up to now.
  pub is_delivered : State → String → String → String → Bool
  -- The entry of a stream at an id.
  pub entry : State → String → String → Option Message

abbrev pub has_member : String → List String → Bool
has_member id [] = false
has_member id (i ∷ ids) = str_eq i id || has_member id ids

abbrev pub message_ids : List Message → List String
message_ids [] = []
message_ids (m ∷ ms) = m.id ∷ message_ids ms

abbrev pub pending_ids : List PendingEntry → List String
pending_ids [] = []
pending_ids (p ∷ pend) = p.id ∷ pending_ids pend

-- No id stands twice in the list.
abbrev pub IsDistinct : List String → Type 0
IsDistinct [] = Unit
IsDistinct (i ∷ ids) = (has_member i ids ≡ false) × IsDistinct ids

-- The documented behaviour. Reading ">" gives a group messages that it was never given, each once,
-- and from then on it was given them; no command takes that back. XCLAIM returns messages out of
-- those that it is asked for and that were delivered, with their entries, which
-- no command that adds or claims changes. XPENDING lists a message once.
pub record IsRedis (r : Redis) : Type 0 where
  pub create_keeps :
      (s : r.State) (st g st' g' id : String)
      → r.is_delivered s st g id ≡ true
      → r.is_delivered (r.xgroup_create s st' g').0 st g id ≡ true
  pub add_keeps :
      (s : r.State) (st g id st' : String) (n : ℤ) (values : List (String × String))
      → r.is_delivered s st g id ≡ true
      → r.is_delivered (r.xadd s st' n values).0 st g id ≡ true
  pub read_keeps :
      (s : r.State) (st g id st' g' c : String) (n block : ℤ)
      → r.is_delivered s st g id ≡ true
      → r.is_delivered (r.xreadgroup s st' g' c n block).0 st g id ≡ true
  pub claim_keeps :
      (s : r.State) (st g id : String) (c : Claim)
      → r.is_delivered s st g id ≡ true
      → r.is_delivered (r.xclaim s c).0 st g id ≡ true
  pub ack_keeps :
      (s : r.State) (st g id st' g' : String) (ids : List String)
      → r.is_delivered s st g id ≡ true
      → r.is_delivered (r.xack_xdel s st' g' ids).0 st g id ≡ true
  pub read_new :
      (s s' : r.State) (st g c : String) (n block : ℤ) (ms : List Message)
      → r.xreadgroup s st g c n block ≡ (s', reply (ms ∷ []))
      → All (λ m. (r.is_delivered s st g m.id ≡ false) × (r.is_delivered s' st g m.id ≡ true)) ms
  pub read_distinct :
      (s s' : r.State) (st g c : String) (n block : ℤ) (ms : List Message)
      → r.xreadgroup s st g c n block ≡ (s', reply (ms ∷ []))
      → IsDistinct (message_ids ms)
  -- One stream is asked, one is answered.
  pub read_one :
      (s s' : r.State) (st g c : String) (n block : ℤ) (res : List (List Message))
      → r.xreadgroup s st g c n block ≡ (s', reply res)
      → (ms : List Message) × (res ≡ ms ∷ [])
  pub claim_asked :
      (s s' : r.State) (c : Claim) (ms : List Message)
      → r.xclaim s c ≡ (s', reply ms)
      → All
          (λ m.
            (has_member m.id c.messages ≡ true)
            × (r.is_delivered s c.stream c.group m.id ≡ true)
            × (r.entry s c.stream m.id ≡ some m))
          ms
  pub claim_entry :
      (s : r.State) (st id : String) (c : Claim) → r.entry (r.xclaim s c).0 st id ≡ r.entry s st id
  pub pending_distinct :
      (s : r.State) (st g : String) (min_idle n : ℤ) (pend : List PendingEntry)
      → r.xpending s st g min_idle n ≡ reply pend
      → IsDistinct (pending_ids pend)
