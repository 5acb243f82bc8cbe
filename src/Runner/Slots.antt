-- ===== src/Runner/Slots.antt =====
-- `loop` of cmd/runner/main.go: the slots, which are cores that one job has for itself.
use arena.Common.{
  ℕ, zero, suc, ◌+◌, ◌≤◌, ◌<◌, ℤ, pos, eqb_ℤ, eqb_ℤ_iff, String, str_eq, Bool, true, false, not,
  ◌≡◌, refl, ap, ◌∙◌, Option, none, some, List, [], ◌∷◌, ◌++◌, length, filter, Option-cases, inl,
  inr, arith,
}

-- The channel of free slots, the jobs that run, each in its slot, and the ids that are in flight.
pub record Agent : Type 0 where
  pub free : List ℤ
  pub busy : List (String × ℤ)
  pub in_flight : List String

abbrev pub slots_from : ℕ → ℕ → List ℤ
slots_from first zero = []
slots_from first (suc n) = pos first ∷ slots_from (suc first) n

-- The start of `loop`.
abbrev pub start_agent : ℕ → Agent
start_agent n = record { free = slots_from 0 n; busy = []; in_flight = [] }

-- `inFlight.Store`
abbrev pub store_id : String → List String → List String
store_id id ids = filter (λ i. not (str_eq i id)) ids ++ id ∷ []

-- One delivery takes a slot; `none` if it has to wait for one.
abbrev pub take_from : Agent → String → List ℤ → Option Agent
take_from a id [] = none
take_from a id (slot ∷ rest) =
    some (record {
      free = rest;
      busy = a.busy ++ (id, slot) ∷ [];
      in_flight = store_id id a.in_flight;
    })

abbrev pub take_slot : Agent → String → Option Agent
take_slot a id = take_from a id a.free

unfoldable pub start_jobs : Agent → List String → Option Agent
start_jobs a [] = some a
start_jobs a (id ∷ ids) = elim (take_slot a id) [ none ↦ none | some a' ↦ start_jobs a' ids ]

-- The deferred end of a job.
unfoldable pub end_job : Agent → String → ℤ → List (String × ℤ) → Agent
end_job a id slot others = record {
  free = a.free ++ slot ∷ [];
  busy = others;
  in_flight = filter (λ i. not (str_eq i id)) a.in_flight;
}

-- What happens to the agent: at most as many deliveries as it asked for, which is the number of its
-- free slots; or the end of any job that runs.
pub data AgentStep (a : Agent) : Agent → Type 0 where
  deliver :
      {a' : Agent} (ids : List String)
      → length ids ≤ length a.free
      → start_jobs a ids ≡ some a'
      → AgentStep a a'
  finish :
      (before after : List (String × ℤ)) (id : String) (slot : ℤ)
      → a.busy ≡ before ++ (id, slot) ∷ after
      → AgentStep a (end_job a id slot (before ++ after))

pub data AgentRun (n : ℕ) : Agent → Type 0 where
  fresh : AgentRun n (start_agent n)
  then_ : {a a' : Agent} → AgentRun n a → AgentStep a a' → AgentRun n a'

abbrev pub one_if : Bool → ℕ
one_if true = 1
one_if false = 0

unfoldable pub count_slot : ℤ → List ℤ → ℕ
count_slot s [] = 0
count_slot s (x ∷ xs) = one_if (eqb_ℤ x s) + count_slot s xs

unfoldable pub count_busy : ℤ → List (String × ℤ) → ℕ
count_busy s [] = 0
count_busy s ((id, x) ∷ xs) = one_if (eqb_ℤ x s) + count_busy s xs

count_slot-append :
    (s : ℤ) (xs ys : List ℤ) → count_slot s (xs ++ ys) ≡ count_slot s xs + count_slot s ys
unfolding count_slot
count_slot-append s [] ys = omega arith
count_slot-append s (x ∷ xs) ys = omega (arith, count_slot-append s xs ys)

count_busy-append :
    (s : ℤ) (xs ys : List (String × ℤ))
    → count_busy s (xs ++ ys) ≡ count_busy s xs + count_busy s ys
unfolding count_busy
count_busy-append s [] ys = omega arith
count_busy-append s ((id, x) ∷ xs) ys = omega (arith, count_busy-append s xs ys)

-- No slot stands twice in the channel at the start.
slots_from-low :
    (s : ℤ) (first n : ℕ) (k : ℕ) → s ≡ pos k → k < first → count_slot s (slots_from first n) ≡ 0
unfolding count_slot
slots_from-low s first zero k e l = refl
slots_from-low s first (suc n) k e l =
    ground (arith, slots_from-low s (suc first) n k, eqb_ℤ_iff (pos first) s)

slots_from-once : (s : ℤ) (first n : ℕ) → count_slot s (slots_from first n) ≤ 1
unfolding count_slot
slots_from-once s first zero = omega arith
slots_from-once s first (suc n) = ground (
  arith,
  slots_from-once s (suc first) n,
  slots_from-low s (suc first) n first,
  eqb_ℤ_iff (pos first) s,
)

abbrev held : ℤ → Agent → ℕ
held s a = count_slot s a.free + count_busy s a.busy

take_from-held :
    (a a' : Agent) (id : String) (free : List ℤ) (s : ℤ)
    → take_from a id free ≡ some a'
    → (held s a' ≡ count_slot s free + count_busy s a.busy) × (length a'.free + 1 ≡ length free)
unfolding count_slot count_busy
take_from-held a a' id [] s e = absurd (ground arith)
take_from-held a a' id (slot ∷ rest) s e =
    let f : a'.free ≡ rest = ground arith in
    let b : a'.busy ≡ a.busy ++ (id, slot) ∷ [] = ground arith in
    rw (f, b) (ground (arith, count_busy-append s a.busy ((id, slot) ∷ [])), ground arith)

start_jobs-held :
    (ids : List String) (a a' : Agent) (s : ℤ) → start_jobs a ids ≡ some a' → held s a' ≡ held s a
unfolding start_jobs
start_jobs-held [] a a' s e = let same : a' ≡ a = ground arith in ap (held s) same
start_jobs-held (id ∷ ids) a a' s e = elim (Option-cases (take_slot a id)) [
  | inl f ↦ absurd (ground arith)
  | inr (b, f) ↦ start_jobs-held ids b a' s (ground arith) ∙ (take_from-held a b id a.free s f).0
]

-- As many deliveries as there are free slots start without waiting.
pub start_jobs-length :
    (ids : List String) (a : Agent)
    → length ids ≤ length a.free
    → (a' : Agent) × (start_jobs a ids ≡ some a')
unfolding start_jobs
start_jobs-length [] a h = (a, refl)
start_jobs-length (id ∷ ids) a h = elim (Option-cases (take_slot a id)) [
  | inl f ↦ absurd (omega (arith, none_free a.free f))
  | inr (b, f) ↦
      let (a', g) =
        start_jobs-length ids b (omega (arith, (take_from-held a b id a.free (pos 0) f).1)) in
      (a', ground arith)
]
  where
    none_free : (free : List ℤ) → take_from a id free ≡ none → length free ≡ 0
    none_free [] f = refl
    none_free (x ∷ free) f = absurd (ground arith)

end_job-held :
    (a : Agent) (id : String) (slot s : ℤ) (before after : List (String × ℤ))
    → a.busy ≡ before ++ (id, slot) ∷ after
    → held s (end_job a id slot (before ++ after)) ≡ held s a
unfolding end_job count_slot count_busy
end_job-held a id slot s before after e = rw e (
    omega (
      arith,
      count_slot-append s a.free (slot ∷ []),
      count_busy-append s before after,
      count_busy-append s before ((id, slot) ∷ after),
    ))

AgentRun-held :
    {n : ℕ} {a : Agent} (s : ℤ) → AgentRun n a → held s a ≡ count_slot s (slots_from 0 n)
unfolding count_busy
AgentRun-held s fresh = omega arith
AgentRun-held s (then_ {a} {a'} run (deliver ids l e)) =
    start_jobs-held ids a a' s e ∙ AgentRun-held s run
AgentRun-held s (then_ {a} run (finish before after id slot e)) =
    end_job-held a id slot s before after e ∙ AgentRun-held s run

-- At every moment, whatever is delivered and in which order jobs end, each slot of the runner is
-- free or holds one job: no two jobs share a core.
pub AgentRun-once :
    {n : ℕ} {a : Agent} (s : ℤ)
    → AgentRun n a
    → (count_slot s a.free + count_busy s a.busy ≡ count_slot s (slots_from 0 n))
      × (count_slot s a.free + count_busy s a.busy ≤ 1)
AgentRun-once {n} s run =
    (AgentRun-held s run, omega (arith, AgentRun-held s run, slots_from-once s 0 n))
