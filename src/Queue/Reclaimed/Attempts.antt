-- ===== src/Queue/Reclaimed/Attempts.antt =====
-- The attempts that `Reclaim` counts, and the ids that it sorts by them.
use arena.Common.{
  ℤ, ◌≤ℤ◌, ◌<ℤ◌, String, str_eq, str_eq_iff, true, false, ◌≡◌, refl, List, [], ◌∷◌, ◌++◌, arith,
  inr, ◌⊎◌, if◌then◌else◌,
}
use arena.Queue.Streams.{PendingEntry, has_member, IsDistinct, pending_ids}
use arena.Queue.{attempts_from, dead_ids, live_ids}

pub has_member-split :
    (id : String) (xs ys : List String)
    → has_member id (xs ++ ys) ≡ true
    → (has_member id xs ≡ true) ⊎ (has_member id ys ≡ true)
has_member-split id [] ys h = inr h
has_member-split id (x ∷ xs) ys h = ground (arith, has_member-split id xs ys)

pub attempts_from-old :
    (attempts : String → ℤ) (pend : List PendingEntry) (id : String)
    → has_member id (pending_ids pend) ≡ false
    → attempts_from attempts pend id ≡ attempts id
unfolding attempts_from
attempts_from-old attempts [] id h = refl
attempts_from-old attempts (p ∷ pend) id h =
    ground
      (arith, attempts_from-old (λ i. if str_eq p.id i then p.retry_count else attempts i) pend id)

pub live_ids-pending :
    (pend : List PendingEntry) (n : ℤ) (id : String)
    → has_member id (live_ids pend n) ≡ true
    → has_member id (pending_ids pend) ≡ true
unfolding live_ids
live_ids-pending [] n id h = h
live_ids-pending (p ∷ pend) n id h = ground (arith, live_ids-pending pend n id)

pub dead_ids-pending :
    (pend : List PendingEntry) (n : ℤ) (id : String)
    → has_member id (dead_ids pend n) ≡ true
    → has_member id (pending_ids pend) ≡ true
unfolding dead_ids
dead_ids-pending [] n id h = h
dead_ids-pending (p ∷ pend) n id h = ground (arith, dead_ids-pending pend n id)

pub live_ids-below :
    (attempts : String → ℤ) (pend : List PendingEntry) (n : ℤ) (id : String)
    → IsDistinct (pending_ids pend)
    → has_member id (live_ids pend n) ≡ true
    → attempts_from attempts pend id <ℤ n
unfolding live_ids attempts_from
live_ids-below attempts [] n id d h = absurd (ground arith)
live_ids-below attempts (p ∷ pend) n id (a, d) h =
    let next = λ (i : String). if str_eq p.id i then p.retry_count else attempts i in
    ground (
      arith,
      live_ids-below next pend n id d,
      live_ids-pending pend n id,
      attempts_from-old next pend id,
      str_eq_iff p.id id,
    )

pub dead_ids-above :
    (attempts : String → ℤ) (pend : List PendingEntry) (n : ℤ) (id : String)
    → IsDistinct (pending_ids pend)
    → has_member id (dead_ids pend n) ≡ true
    → n ≤ℤ attempts_from attempts pend id
unfolding dead_ids attempts_from
dead_ids-above attempts [] n id d h = absurd (ground arith)
dead_ids-above attempts (p ∷ pend) n id (a, d) h =
    let next = λ (i : String). if str_eq p.id i then p.retry_count else attempts i in
    ground (
      arith,
      dead_ids-above next pend n id d,
      dead_ids-pending pend n id,
      attempts_from-old next pend id,
      str_eq_iff p.id id,
    )
