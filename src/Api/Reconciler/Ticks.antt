-- ===== src/Api/Reconciler/Ticks.antt =====
-- The ticks of the reconciler, seen from one submission.
use arena.Common.{
  ℕ, suc, ℤ, pos, ◌+ℤ◌, ◌-ℤ◌, ◌≤ℤ◌, ◌<ℤ◌, leb_ℤ, int_laws, String, str_eq_iff, subst, true, false,
  ◌≡◌, refl, ap, ◌∙◌, some, List, [], ◌∷◌, if◌then◌else◌, arith, Bool-cases, ◌⊎◌, inl, inr,
}
use arena.Core.Limits.{Multiplier}
use arena.Core.Verdict.{ie, failed}
use arena.Store.{Row, any_row, has_id, is_open, finish_row, stuck_submissions}
use arena.Store.Rows.{row_of, IsKeyed, stuck_submissions-IsKeyed, stuck_submissions-closed}
use arena.Api.World.{World, Server}
use arena.Api.Reconciler.{give_up_result, reconcile_row, reconcile_rows, reconcile_once}
use arena.Api.Reconciler.GivesUp.{
  given_up, retried, reconcile_row-hit, reconcile_row-other, reconcile_row-IsKeyed,
}

module _ (fl : Multiplier) (srv : Server fl) where
  open fl use {Float}

  reconcile_rows-other :
      (w : World Float) (subs : List Row) (now : ℤ) (id : String) (x : Row)
      → row_of w.db id ≡ some x
      → any_row (has_id id) subs ≡ false
      → row_of (reconcile_rows fl srv w subs now).db id ≡ some x
  unfolding reconcile_rows any_row
  reconcile_rows-other w [] now id x e h = e
  reconcile_rows-other w (sub ∷ subs) now id x e h =
      reconcile_rows-other (reconcile_row fl srv w sub now) subs now id x
        (reconcile_row-other fl srv w sub x now id e (ground arith)) (ground arith)

  reconcile_rows-hit :
      (w : World Float) (subs : List Row) (now : ℤ) (id : String) (x : Row)
      → IsKeyed subs
      → any_row (has_id id) subs ≡ true
      → row_of w.db id ≡ some x
      → is_open x.status ≡ true
      → row_of (reconcile_rows fl srv w subs now).db id ≡ some (retried fl srv x now)
  unfolding reconcile_rows any_row
  reconcile_rows-hit w [] now id x k h e o = absurd (cc)
  reconcile_rows-hit w (sub ∷ subs) now id x (a, k) h e o = elim (Bool-cases (has_id id sub)) [
    | inl here ↦
        let same : sub.id ≡ id = (str_eq_iff sub.id id).0 here in
        reconcile_rows-other (reconcile_row fl srv w sub now) subs now id (retried fl srv x now)
          (subst (λ i. row_of (reconcile_row fl srv w sub now).db i ≡ some (retried fl srv x now))
            same (reconcile_row-hit fl srv w sub x now (rw same e) o))
          (rw same at a)
    | inr other ↦
        reconcile_rows-hit (reconcile_row fl srv w sub now) subs now id x k (ground arith)
          (reconcile_row-other fl srv w sub x now id e other) o
  ]

  reconcile_rows-IsKeyed :
      (w : World Float) (subs : List Row) (now : ℤ)
      → IsKeyed w.db.rows
      → IsKeyed (reconcile_rows fl srv w subs now).db.rows
  unfolding reconcile_rows
  reconcile_rows-IsKeyed w [] now k = k
  reconcile_rows-IsKeyed w (sub ∷ subs) now k =
      reconcile_rows-IsKeyed (reconcile_row fl srv w sub now) subs now
        (reconcile_row-IsKeyed fl srv w sub now k)

  -- The submissions that a tick takes up.
  abbrev pub listed : World Float → ℤ → ℤ → List Row
  listed w stuck_after now = stuck_submissions w.db (now -ℤ stuck_after) 100

  -- One tick, where the ids of the table are distinct: a submission that it lists has one attempt
  -- more, and is FAILED with IE once that makes the allowed number; every other row is as it was.
  pub reconcile_once-retried :
      (w : World Float) (stuck_after now : ℤ) (id : String) (x : Row)
      → IsKeyed w.db.rows
      → row_of w.db id ≡ some x
      → row_of (reconcile_once fl srv w stuck_after now).db id
        ≡ some (if any_row (has_id id) (listed w stuck_after now) then retried fl srv x now else x)
  unfolding reconcile_once
  reconcile_once-retried w stuck_after now id x k e =
      let subs = listed w stuck_after now in
      elim (Bool-cases (any_row (has_id id) subs)) [
        | inr out ↦ rw out (reconcile_rows-other w subs now id x e out)
        | inl inside ↦ elim (Bool-cases (is_open x.status)) [
          | inl o ↦ rw inside (
              reconcile_rows-hit w subs now id x (stuck_submissions-IsKeyed w.db _ 100 k) inside e
                o)
          | inr c ↦
              absurd
                (ground (arith, stuck_submissions-closed w.db (now -ℤ stuck_after) 100 id x k e c))
        ]
      ]

  -- Ticks that all list one submission, and between them anything that leaves its row as it is and
  -- the ids of the table distinct.
  pub data Ticks (id : String) (stuck_after : ℤ) (w : World Float) : ℕ → World Float → Type 0 where
    start : Ticks id stuck_after w 0 w
    tick :
        {n : ℕ} {w' : World Float}
        → Ticks id stuck_after w n w'
        → (now : ℤ) → any_row (has_id id) (listed w' stuck_after now) ≡ true
        → Ticks id stuck_after w (suc n) (reconcile_once fl srv w' stuck_after now)
    between :
        {n : ℕ} {w' : World Float}
        → Ticks id stuck_after w n w'
        → (v : World Float) → IsKeyed v.db.rows
        → row_of v.db id ≡ row_of w'.db id
        → Ticks id stuck_after w n v

  Ticks-IsKeyed :
      {id : String} {stuck_after : ℤ} {w w' : World Float} {n : ℕ}
      → Ticks id stuck_after w n w'
      → IsKeyed w.db.rows
      → IsKeyed w'.db.rows
  unfolding reconcile_once
  Ticks-IsKeyed start k = k
  Ticks-IsKeyed {stuck_after = stuck_after} (tick {w' = w'} t now h) k =
      reconcile_rows-IsKeyed w' (listed w' stuck_after now) now (Ticks-IsKeyed t k)
  Ticks-IsKeyed (between t v keyed same) k = keyed

  -- Open, and retried n times.
  abbrev pub IsWaiting : Row → ℕ → World Float → Type 0
  IsWaiting x n w =
      (row_of w.db x.id ≡ some (record x { attempt = x.attempt +ℤ pos n }))
      × ((n ≡ 0) ⊎ (x.attempt +ℤ pos n <ℤ srv.max_attempts))

  -- Failed at the first tick, or at the one that reached the allowed number of attempts.
  abbrev pub IsGivenUp : Row → ℕ → World Float → Type 0
  IsGivenUp x n w =
      (y : Row) × (row_of w.db x.id ≡ some y)
      × (y.status ≡ failed)
      × (y.verdict ≡ some ie)
      × (srv.max_attempts ≤ℤ x.attempt +ℤ pos n)
      × ((n ≡ 1) ⊎ (x.attempt +ℤ pos n ≡ srv.max_attempts))

  no_more : (x : Row) → x.attempt ≡ x.attempt +ℤ pos 0
  no_more x = omega int_laws

  one_more : (x : Row) (n : ℕ) → x.attempt +ℤ pos n +ℤ pos 1 ≡ x.attempt +ℤ pos (suc n)
  one_more x n = omega int_laws

  spent_le :
      (x : Row) (n : ℕ)
      → leb_ℤ srv.max_attempts (x.attempt +ℤ pos n +ℤ pos 1) ≡ true
      → srv.max_attempts ≤ℤ x.attempt +ℤ pos (suc n)
  spent_le x n h = at_most (x.attempt +ℤ pos (suc n)) (rw (one_more x n) at h)
    where
      at_most : (a : ℤ) → leb_ℤ srv.max_attempts a ≡ true → srv.max_attempts ≤ℤ a
      at_most a h = ground arith

  left_lt :
      (x : Row) (n : ℕ)
      → leb_ℤ srv.max_attempts (x.attempt +ℤ pos n +ℤ pos 1) ≡ false
      → x.attempt +ℤ pos (suc n) <ℤ srv.max_attempts
  left_lt x n h = below (x.attempt +ℤ pos (suc n)) (rw (one_more x n) at h)
    where
      below : (a : ℤ) → leb_ℤ srv.max_attempts a ≡ false → a <ℤ srv.max_attempts
      below a h = ground arith

  spent_eq :
      (x : Row) (n : ℕ)
      → srv.max_attempts ≤ℤ x.attempt +ℤ pos (suc n)
      → x.attempt +ℤ pos n <ℤ srv.max_attempts
      → x.attempt +ℤ pos (suc n) ≡ srv.max_attempts
  spent_eq x n g l = omega int_laws

  IsWaiting-tick :
      (x : Row) (n : ℕ) (w : World Float) (stuck_after now : ℤ)
      → IsKeyed w.db.rows
      → is_open x.status ≡ true
      → any_row (has_id x.id) (listed w stuck_after now) ≡ true
      → IsWaiting x n w
      → (IsWaiting x (suc n) (reconcile_once fl srv w stuck_after now))
        ⊎ (IsGivenUp x (suc n) (reconcile_once fl srv w stuck_after now))
  unfolding finish_row give_up_result
  IsWaiting-tick x n w stuck_after now k o h (e, b) =
      let y = record x { attempt = x.attempt +ℤ pos n } in
      let after : row_of (reconcile_once fl srv w stuck_after now).db x.id
          ≡ some (retried fl srv y now) =
        reconcile_once-retried w stuck_after now x.id y k e
        ∙ ap (λ b. some (if b then retried fl srv y now else y)) h in
      elim (Bool-cases (leb_ℤ srv.max_attempts (y.attempt +ℤ pos 1))) [
        | inl spent ↦ inr (
          given_up y now,
          after ∙ rw spent refl,
          refl,
          refl,
          spent_le x n spent,
          elim b [
            | inl z ↦ inl (omega (arith, z))
            | inr lt ↦ inr (spent_eq x n (spent_le x n spent) lt)
          ],
        )
        | inr left ↦ inl (
          after ∙ rw left (ap (λ a. some (record x { attempt = a })) (one_more x n)),
          inr (left_lt x n left),
        )
      ]

  -- An open submission that n ticks list, whatever else happens between them that leaves its row as
  -- it is and the ids of the table distinct, has n attempts more
  -- and these are below the allowed number (or n is 0), or it is FAILED with IE, which happens at
  -- the first tick or at the one that reaches the allowed number, and not before its attempts are
  -- used up. The ids of the table are distinct.
  pub Ticks-gives_up :
      (x : Row) (stuck_after : ℤ) (w w' : World Float) (n : ℕ)
      → IsKeyed w.db.rows
      → row_of w.db x.id ≡ some x
      → is_open x.status ≡ true
      → Ticks x.id stuck_after w n w'
      → IsWaiting x n w' ⊎ IsGivenUp x n w'
  unfolding is_open
  Ticks-gives_up x stuck_after w w' n k e o start =
      inl (e ∙ ap (λ a. some (record x { attempt = a })) (no_more x), inl refl)
  Ticks-gives_up x stuck_after w w' n k e o (between t v keyed same) =
      elim (Ticks-gives_up x stuck_after w _ n k e o t) [
        | inl (f, b) ↦ inl (same ∙ f, b)
        | inr (y, f, s, r, g, q) ↦ inr (y, same ∙ f, s, r, g, q)
      ]
  Ticks-gives_up x stuck_after w w' n k e o (tick {n = m} {w' = v} t now h) =
      elim (Ticks-gives_up x stuck_after w v m k e o t) [
        | inl wait ↦ IsWaiting-tick x m v stuck_after now (Ticks-IsKeyed t k) o h wait
        | inr (y, f, s, r, g, q) ↦
            let shut : is_open y.status ≡ false = rw s refl in
            absurd (
              ground (
                arith,
                stuck_submissions-closed v.db (now -ℤ stuck_after) 100 x.id y (Ticks-IsKeyed t k) f
                    shut,
              ))
      ]
