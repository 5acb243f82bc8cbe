-- ===== src/Api/Reconciler/GivesUp.antt =====
-- A lost submission is queued again until its attempts are used up, and then fails.
use arena.Common.{
  ℤ, pos, ◌+ℤ◌, leb_ℤ, String, str_eq_iff, Bool, true, false, ◌&&◌, ◌≡◌, refl, sym, ap, ◌∙◌, none,
  some, List, [], ◌∷◌, if◌then◌else◌, arith, Bool-cases, Option-cases, subst, inl, inr,
}
use arena.Core.Limits.{Multiplier}
use arena.Core.Verdict.{is_done}
use arena.Store.{
  Row, Db, update_rows, any_row, find_row, has_id, is_open, is_unfinished, finish_row, save_result,
  bump_attempt,
}
use arena.Store.Rows.{row_of, find_row-update, find_row-has_id, IsKeyed, update_rows-IsKeyed}
use arena.Api.World.{World, Server}
use arena.Api.Reconciler.{
  give_up_result, or_same, give_up, republish, publish_job, reconcile_bumped, reconcile_row,
}

abbrev pub bumped : Row → Row
bumped x = record x { attempt = x.attempt +ℤ pos 1 }

-- The row of a submission that the reconciler has given up.
abbrev pub given_up : Row → ℤ → Row
given_up x now = finish_row (give_up_result x.id) now (bumped x)

any_row-found :
    (w : Row → Bool) (id : String) (rows : List Row) (x : Row)
    → find_row (has_id id) rows ≡ some x
    → w x ≡ true
    → any_row w rows ≡ true
unfolding any_row find_row
any_row-found w id [] x e h = absurd (cc)
any_row-found w id (y ∷ rows) x e h = ground (arith, any_row-found w id rows x)

save_result-row :
    (db : Db) (id i : String) (now : ℤ) (x : Row)
    → row_of db id ≡ some x
    → row_of (or_same db (save_result db (give_up_result i) now)) id
      ≡ some (if is_unfinished i x then finish_row (give_up_result i) now x else x)
unfolding save_result give_up_result
save_result-row db id i now x e = ground (
  arith,
  any_row-found (is_unfinished i) id db.rows x e,
  find_row-update (is_unfinished i) (finish_row (give_up_result i) now) id db.rows x
      (λ y. unfold finish_row in refl) e,
)

save_result-IsKeyed :
    (db : Db) (i : String) (now : ℤ)
    → IsKeyed db.rows
    → IsKeyed (or_same db (save_result db (give_up_result i) now)).rows
unfolding save_result give_up_result
save_result-IsKeyed db i now k = elim (Bool-cases (any_row (is_unfinished i) db.rows)) [
  | inl e ↦ rw e (
      update_rows-IsKeyed (is_unfinished i) (finish_row (give_up_result i) now) db.rows
        (λ y. unfold finish_row in refl) k)
  | inr e ↦ rw e k
]

open_bumped :
    (x : Row) (id : String)
    → is_open x.status ≡ true
    → has_id id x ≡ true
    → is_unfinished id (bumped x) ≡ true
unfolding is_unfinished is_open is_done
open_bumped x id o h = ground arith

module _ (fl : Multiplier) (srv : Server fl) where
  open fl use {Float}

  republish-db :
      (w : World Float) (sub : Row) (n now : ℤ) → (republish fl srv w sub n now).db ≡ w.db
  unfolding republish publish_job
  republish-db w sub n now = ground arith

  -- The row of a submission that a tick takes up.
  abbrev pub retried : Row → ℤ → Row
  retried x now = if leb_ℤ srv.max_attempts (x.attempt +ℤ pos 1) then given_up x now else bumped x

  abbrev after_bump : World Float → String → World Float
  after_bump w i = record w { db = record w.db { rows = update_rows (has_id i) bumped w.db.rows } }

  reconcile_row-found :
      (w : World Float) (sub y : Row) (now : ℤ)
      → row_of w.db sub.id ≡ some y
      → reconcile_row fl srv w sub now
        ≡ reconcile_bumped fl srv (after_bump w sub.id) sub (y.attempt +ℤ pos 1) now
  unfolding reconcile_row bump_attempt
  reconcile_row-found w sub y now e = ground arith

  reconcile_row-missing :
      (w : World Float) (sub : Row) (now : ℤ)
      → row_of w.db sub.id ≡ none
      → reconcile_row fl srv w sub now ≡ w
  unfolding reconcile_row bump_attempt
  reconcile_row-missing w sub now e = ground arith

  reconcile_bumped-row :
      (w : World Float) (sub x : Row) (n now : ℤ) (id : String)
      → row_of w.db id ≡ some x
      → row_of (reconcile_bumped fl srv w sub n now).db id
        ≡ some (
            if leb_ℤ srv.max_attempts n && is_unfinished sub.id x
            then finish_row (give_up_result sub.id) now x
            else x)
  unfolding reconcile_bumped give_up
  reconcile_bumped-row w sub x n now id e =
      ground (arith, save_result-row w.db id sub.id now x e, republish-db w sub n now)

  after_bump-row :
      (w : World Float) (i id : String) (x : Row)
      → row_of w.db id ≡ some x
      → row_of (after_bump w i).db id ≡ some (if has_id i x then bumped x else x)
  after_bump-row w i id x e = find_row-update (has_id i) bumped id w.db.rows x (λ y. refl) e

  pub reconcile_row-hit :
      (w : World Float) (sub x : Row) (now : ℤ)
      → row_of w.db sub.id ≡ some x
      → is_open x.status ≡ true
      → row_of (reconcile_row fl srv w sub now).db sub.id ≡ some (retried x now)
  reconcile_row-hit w sub x now e o =
      let here = find_row-has_id sub.id w.db.rows x e in
      ap (λ (v : World Float). row_of v.db sub.id) (reconcile_row-found w sub x now e)
      ∙ reconcile_bumped-row (after_bump w sub.id) sub (bumped x) (x.attempt +ℤ pos 1) now sub.id
          (after_bump-row w sub.id sub.id x e ∙ rw here refl)
      ∙ ground (arith, open_bumped x sub.id o here, (str_eq_iff x.id sub.id).0 here)

  pub reconcile_row-other :
      (w : World Float) (sub x : Row) (now : ℤ) (id : String)
      → row_of w.db id ≡ some x
      → has_id id sub ≡ false
      → row_of (reconcile_row fl srv w sub now).db id ≡ some x
  unfolding is_unfinished
  reconcile_row-other w sub x now id e o = elim (Option-cases (row_of w.db sub.id)) [
    | inl f ↦ ap (λ (v : World Float). row_of v.db id) (reconcile_row-missing w sub now f) ∙ e
    | inr (y, f) ↦
        let other : has_id sub.id x ≡ false = ground (
          arith,
          find_row-has_id id w.db.rows x e,
          str_eq_iff x.id id,
          str_eq_iff sub.id id,
          str_eq_iff x.id sub.id,
        ) in
        ap (λ (v : World Float). row_of v.db id) (reconcile_row-found w sub y now f)
        ∙ reconcile_bumped-row (after_bump w sub.id) sub x (y.attempt +ℤ pos 1) now id
            (after_bump-row w sub.id id x e ∙ rw other refl)
        ∙ ground arith
  ]

  reconcile_bumped-IsKeyed :
      (w : World Float) (sub : Row) (n now : ℤ)
      → IsKeyed w.db.rows
      → IsKeyed (reconcile_bumped fl srv w sub n now).db.rows
  unfolding reconcile_bumped give_up
  reconcile_bumped-IsKeyed w sub n now k = elim (Bool-cases (leb_ℤ srv.max_attempts n)) [
    | inl e ↦ rw e (save_result-IsKeyed w.db sub.id now k)
    | inr e ↦ rw e (subst (λ (d : Db). IsKeyed d.rows) (sym (republish-db w sub n now)) k)
  ]

  pub reconcile_row-IsKeyed :
      (w : World Float) (sub : Row) (now : ℤ)
      → IsKeyed w.db.rows
      → IsKeyed (reconcile_row fl srv w sub now).db.rows
  reconcile_row-IsKeyed w sub now k = elim (Option-cases (row_of w.db sub.id)) [
    | inl f ↦ rw (reconcile_row-missing w sub now f) k
    | inr (y, f) ↦
        let keyed = update_rows-IsKeyed (has_id sub.id) bumped w.db.rows (λ y. refl) k in
        rw (reconcile_row-found w sub y now f)
          (reconcile_bumped-IsKeyed (after_bump w sub.id) sub (y.attempt +ℤ pos 1) now keyed)
  ]
