-- ===== src/Store/Rows.antt =====
-- Rows found by id, and the statements that change, add and list them.
use arena.Common.{
  ◌⊎◌, Bool-cases, ℤ, inl, inr, true, if◌then◌else◌, ap, ◌∙◌, zero, suc, filter, take, ℕ, ℤ, String,
  str_eq_iff, Bool, true, false, ◌≡◌, refl, ap, ◌∙◌, Option, some, List, [], ◌∷◌, ◌++◌,
  if◌then◌else◌, arith,
}
use arena.Store.{
  DbResult, ok, refused, stuck_submissions, is_open, Db, Row, Db, update_rows, any_row, find_row,
  has_id, is_open,
}

pub DbResult-cases {ℓ} : {A : Type ℓ} (r : DbResult A) → (r ≡ refused) ⊎ ((a : A) × (r ≡ ok a))
DbResult-cases refused = inl refl
DbResult-cases (ok a) = inr (a, refl)

abbrev pub row_of : Db → String → Option Row
row_of db id = find_row (has_id id) db.rows

pub find_row-update :
    (w : Row → Bool) (f : Row → Row) (id : String) (rows : List Row) (x : Row)
    → ((y : Row) → (f y).id ≡ y.id)
    → find_row (has_id id) rows ≡ some x
    → find_row (has_id id) (update_rows w f rows) ≡ some (if w x then f x else x)
unfolding find_row update_rows
find_row-update w f id [] x h e = cc
find_row-update w f id (y ∷ rows) x h e = ground (arith, h y, find_row-update w f id rows x h)

pub find_row-append :
    (w : Row → Bool) (rows new : List Row) (x : Row)
    → find_row w rows ≡ some x
    → find_row w (rows ++ new) ≡ some x
unfolding find_row
find_row-append w [] new x e = cc
find_row-append w (y ∷ rows) new x e = ground (arith, find_row-append w rows new x)

pub find_row-has_id :
    (id : String) (rows : List Row) (x : Row)
    → find_row (has_id id) rows ≡ some x
    → has_id id x ≡ true
unfolding find_row
find_row-has_id id [] x e = absurd (cc)
find_row-has_id id (y ∷ rows) x e = ground (arith, find_row-has_id id rows x)

-- No two rows have one id.
abbrev pub IsKeyed : List Row → Type 0
IsKeyed [] = Unit
IsKeyed (x ∷ rows) = (any_row (has_id x.id) rows ≡ false) × IsKeyed rows

any_row-has_id-update :
    (w : Row → Bool) (f : Row → Row) (id : String) (rows : List Row)
    → ((y : Row) → (f y).id ≡ y.id)
    → any_row (has_id id) (update_rows w f rows) ≡ any_row (has_id id) rows
unfolding any_row update_rows
any_row-has_id-update w f id [] h = refl
any_row-has_id-update w f id (y ∷ rows) h = ground (arith, h y, any_row-has_id-update w f id rows h)

pub update_rows-IsKeyed :
    (w : Row → Bool) (f : Row → Row) (rows : List Row)
    → ((y : Row) → (f y).id ≡ y.id)
    → IsKeyed rows
    → IsKeyed (update_rows w f rows)
unfolding update_rows
update_rows-IsKeyed w f [] h k = tt
update_rows-IsKeyed w f (y ∷ rows) h (a, k) = (
  ap (λ i. any_row (has_id i) (update_rows w f rows)) (kept_id (w y))
      ∙ any_row-has_id-update w f y.id rows h
      ∙ a,
  update_rows-IsKeyed w f rows h k,
)
  where
    kept_id : (b : Bool) → (if b then f y else y).id ≡ y.id
    kept_id true = h y
    kept_id false = refl

any_row-filter :
    (w p : Row → Bool) (rows : List Row)
    → any_row w rows ≡ false
    → any_row w (filter p rows) ≡ false
unfolding any_row
any_row-filter w p [] h = refl
any_row-filter w p (y ∷ rows) h = ground (arith, any_row-filter w p rows)

any_row-take :
    (w : Row → Bool) (n : ℕ) (rows : List Row)
    → any_row w rows ≡ false
    → any_row w (take n rows) ≡ false
unfolding any_row
any_row-take w zero rows h = refl
any_row-take w (suc n) [] h = refl
any_row-take w (suc n) (y ∷ rows) h = ground (arith, any_row-take w n rows)

filter-IsKeyed : (p : Row → Bool) (rows : List Row) → IsKeyed rows → IsKeyed (filter p rows)
filter-IsKeyed p [] k = tt
filter-IsKeyed p (y ∷ rows) (a, k) = kept (filter-IsKeyed p rows k) (p y)
  where
    kept :
        IsKeyed (filter p rows)
        → (b : Bool) → IsKeyed (if b then y ∷ filter p rows else filter p rows)
    kept rest true = (any_row-filter (has_id y.id) p rows a, rest)
    kept rest false = rest

take-IsKeyed : (n : ℕ) (rows : List Row) → IsKeyed rows → IsKeyed (take n rows)
take-IsKeyed zero rows k = tt
take-IsKeyed (suc n) [] k = tt
take-IsKeyed (suc n) (y ∷ rows) (a, k) =
    (any_row-take (has_id y.id) n rows a, take-IsKeyed n rows k)

-- `StuckSubmissions` lists no submission twice, and none that is finished.
pub stuck_submissions-IsKeyed :
    (db : Db) (before : ℤ) (limit : ℕ)
    → IsKeyed db.rows
    → IsKeyed (stuck_submissions db before limit)
unfolding stuck_submissions
stuck_submissions-IsKeyed db before limit k = take-IsKeyed limit _ (filter-IsKeyed _ db.rows k)

any_row-filter_closed :
    (id : String) (p : Row → Bool) (rows : List Row) (x : Row)
    → IsKeyed rows
    → find_row (has_id id) rows ≡ some x
    → p x ≡ false
    → any_row (has_id id) (filter p rows) ≡ false
unfolding any_row find_row
any_row-filter_closed id p [] x k e h = refl
any_row-filter_closed id p (y ∷ rows) x (a, k) e h = elim (Bool-cases (has_id id y)) [
  | inl here ↦
      let id_y : y.id ≡ id = (str_eq_iff y.id id).0 here in
      let gone : any_row (has_id id) rows ≡ false = rw id_y at a in
      ground (arith, any_row-filter (has_id id) p rows gone)
  | inr other ↦ ground (arith, any_row-filter_closed id p rows x k)
]

pub stuck_submissions-closed :
    (db : Db) (before : ℤ) (limit : ℕ) (id : String) (x : Row)
    → IsKeyed db.rows
    → row_of db id ≡ some x
    → is_open x.status ≡ false
    → any_row (has_id id) (stuck_submissions db before limit) ≡ false
unfolding stuck_submissions
stuck_submissions-closed db before limit id x k e o =
    any_row-take (has_id id) limit _ (any_row-filter_closed id _ db.rows x k e (rw o refl))
