-- ===== src/Store/Standings/Fastest.antt =====
-- What `ContestStats` tells of a participant and a problem.
use arena.Common.{
  ℤ, pos, ◌≤ℤ◌, String, Bool, true, false, ◌&&◌, ◌≡◌, refl, ◌⊎◌, inl, inr, Option, none, some, List,
  [], ◌∷◌, length, filter, All, order_by, filter-All, All-filter, filter-kept, order_by-All,
  All-order_by, order_by-Sorted, if◌then◌else◌, arith, Bool-cases,
}
use arena.Core.Scoring.{UserProblemStat}
use arena.Store.{Row, Db, ok, find_row}
use arena.Store.Standings.{
  Stats, find_stat, is_entry, is_solved, is_rejected, cpu_first, distinct_on, stat_of, add_solved,
  group_by, add_attempts, contest_stats,
}
use arena.Store.Standings.Entries.{
  placed, counted, distinct_on-Unique, find_row-distinct_on, find_stat-add_solved,
  find_stat-add_attempts,
}
use arena.Store.Standings.Ordered.{All-found, All-unfound, found-least}

cpu_first_total : (x y : Row) → cpu_first x y ≡ false → cpu_first y x ≡ true
unfolding cpu_first
cpu_first_total x y h = ground arith

cpu_first_trans : (x y z : Row) → cpu_first x y ≡ true → cpu_first y z ≡ true → cpu_first x z ≡ true
unfolding cpu_first
cpu_first_trans x y z h k = ground arith

-- The row is one of the list.
abbrev pub Listed : Row → List Row → Type 0
Listed y [] = ⊥
Listed y (x ∷ rows) = (y ≡ x) ⊎ Listed y rows

All-Listed : (rows : List Row) → All (λ y. Listed y rows) rows
All-Listed [] = tt
All-Listed (x ∷ rows) = (inl refl, more rows (All-Listed rows))
  where
    more : (ys : List Row) → All (λ y. Listed y rows) ys → All (λ y. Listed y (x ∷ rows)) ys
    more [] h = tt
    more (y ∷ ys) h = (inr h.0, more ys h.1)

-- An accepted submission of the contest by this participant to this problem.
abbrev pub is_solution : String → String → String → Row → Bool
is_solution contest u p x = is_solved contest x && is_entry u p x

-- How many submissions were rejected, for another reason than that they do not compile.
abbrev pub rejections : String → String → String → List Row → ℤ
rejections contest u p rows =
    pos (length (filter (is_entry u p) (filter (is_rejected contest) rows)))

module _ (contest u p : String) (rows : List Row) where
  -- The accepted submission that ran for the least CPU time.
  pub record IsFastest (y : Row) : Type 0 where
    pub listed : Listed y rows
    pub solution : is_solution contest u p y ≡ true
    pub least : All (λ x. is_solution contest u p x ≡ true → y.cpu_ms ≤ℤ x.cpu_ms) rows

  -- What the entry of a participant and a problem tells.
  pub data Tells (attempts : ℤ) : Option UserProblemStat → Type 0 where
    unsolved : All (λ x. is_solution contest u p x ≡ false) rows → Tells attempts none
    solved :
        (y : Row) → IsFastest y → Tells attempts (some (record (stat_of y) { attempts = attempts }))

  abbrev ordered : List Row
  ordered = order_by cpu_first (filter (is_solved contest) rows)

  found-IsFastest : (y : Row) → find_row (is_entry u p) ordered ≡ some y → IsFastest y
  found-IsFastest y e = record {
    listed =
        (All-found (λ z. Listed z rows) (is_entry u p) ordered y
          (order_by-All (λ z. Listed z rows) cpu_first (filter (is_solved contest) rows)
            (filter-All (λ z. Listed z rows) (is_solved contest) rows (All-Listed rows)))
          e).0;
    solution =
        (let both =
            All-found (λ z. is_solved contest z ≡ true) (is_entry u p) ordered y
              (order_by-All (λ z. is_solved contest z ≡ true) cpu_first
                (filter (is_solved contest) rows) (filter-kept (is_solved contest) rows))
              e in
          ground (arith, both.0, both.1));
    least = uncurried rows (
        All-filter (λ x. is_entry u p x ≡ true → y.cpu_ms ≤ℤ x.cpu_ms) (is_solved contest) rows
          (All-order_by (λ x. is_entry u p x ≡ true → y.cpu_ms ≤ℤ x.cpu_ms) cpu_first
            (filter (is_solved contest) rows)
            (found-least (is_entry u p) ordered y
              (order_by-Sorted cpu_first cpu_first_total cpu_first_trans
                (filter (is_solved contest) rows))
              e)));
  }
    where
      uncurried :
          (xs : List Row)
          → All (λ x. is_solved contest x ≡ true → is_entry u p x ≡ true → y.cpu_ms ≤ℤ x.cpu_ms) xs
          → All (λ x. is_solution contest u p x ≡ true → y.cpu_ms ≤ℤ x.cpu_ms) xs
      uncurried [] h = tt
      uncurried (x ∷ xs) h = (λ k. h.0 (ground arith) (ground arith), uncurried xs h.1)

  unsolved-All :
      (xs : List Row)
      → All (λ x. is_solved contest x ≡ true → is_entry u p x ≡ false) xs
      → All (λ x. is_solution contest u p x ≡ false) xs
  unsolved-All [] h = tt
  unsolved-All (x ∷ xs) h = elim (Bool-cases (is_solved contest x)) [
    | inl e ↦ (rw e (h.0 e), unsolved-All xs h.1)
    | inr e ↦ (rw e refl, unsolved-All xs h.1)
  ]

  entry-Tells :
      (found : Option Row)
      → find_row (is_entry u p) ordered ≡ found
      → Tells (pos 0) (placed found none)
  unfolding stat_of
  entry-Tells none e = unsolved (
      unsolved-All rows (
        All-filter (λ x. is_entry u p x ≡ false) (is_solved contest) rows
          (All-order_by (λ x. is_entry u p x ≡ false) cpu_first (filter (is_solved contest) rows)
            (All-unfound (is_entry u p) ordered e).0)))
  entry-Tells (some y) e = solved y (found-IsFastest y e)

  unfoldable first_query : Stats
  first_query = add_solved [] (distinct_on ordered)

  first_query-Tells : Tells (pos 0) (find_stat u p first_query)
  unfolding first_query find_stat
  first_query-Tells =
      rw
        (
          find_stat-add_solved u p [] (distinct_on ordered) (distinct_on-Unique ordered),
          find_row-distinct_on u p ordered,
        )
        (entry-Tells (find_row (is_entry u p) ordered) refl)

  counted-Tells :
      (found : Option Row) (o : Option UserProblemStat)
      → find_row (is_entry u p) (filter (is_rejected contest) rows) ≡ found
      → Tells (pos 0) o
      → Tells
          (rejections contest u p rows)
          (counted found (length (filter (is_entry u p) (filter (is_rejected contest) rows))) o)
  counted-Tells none o e t =
      rw (All-unfound (is_entry u p) (filter (is_rejected contest) rows) e).1 t
  counted-Tells (some y) _ e (unsolved h) = unsolved h
  counted-Tells (some y) _ e (solved z h) = solved z h

  second_query-Tells :
      Tells
        (rejections contest u p rows)
        (find_stat u p (add_attempts first_query (group_by (filter (is_rejected contest) rows))))
  unfolding group_by
  second_query-Tells =
      let rejected = filter (is_rejected contest) rows in
      rw
        (
          find_stat-add_attempts u p first_query rejected (distinct_on rejected)
              (distinct_on-Unique rejected),
          find_row-distinct_on u p rejected,
        )
        (counted-Tells (find_row (is_entry u p) rejected) (find_stat u p first_query) refl
          first_query-Tells)

-- When its first query is answered, `ContestStats` returns an entry of a participant and a problem
-- exactly if it is solved: by the accepted submission with the least CPU time, whose numbers the
-- entry holds, with the number of all rejected submissions, before the accepted one and after it,
-- those that do not compile left out. When the second query is not answered, the number is 0 and
-- nothing else changes.
pub contest_stats-fastest :
    (db : Db) (contest u p : String) (tallied : Bool)
    → (stats : Stats) × (contest_stats (true, tallied) db contest ≡ ok stats)
      × Tells contest u p db.rows
          (if tallied then rejections contest u p db.rows else pos 0)
          (find_stat u p stats)
unfolding contest_stats first_query
contest_stats-fastest db contest u p true = (
  add_attempts (first_query contest u p db.rows) (group_by (filter (is_rejected contest) db.rows)),
  refl,
  second_query-Tells contest u p db.rows,
)
contest_stats-fastest db contest u p false =
    (first_query contest u p db.rows, refl, first_query-Tells contest u p db.rows)
