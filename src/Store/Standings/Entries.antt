-- ===== src/Store/Standings/Entries.antt =====
-- The entries that the loops of `ContestStats` make.
use mathlib.Core.Option
use arena.Common.{
  ℕ, pos, String, str_eq, str_eq_iff, Bool, true, false, ◌&&◌, not, ◌≡◌, refl, ap, ◌∙◌, inl, inr,
  Option, none, some, List, [], ◌∷◌, length, filter, if◌then◌else◌, arith, Bool-cases,
}
use arena.Core.Scoring.{UserProblemStat}
use arena.Redis.Leaderboard.{insert}
use arena.Redis.Leaderboard.Best.{lookup-insert}
use arena.Store.{Row, any_row, find_row}
use arena.Store.Standings.{
  Stats, Group, is_group, problems_of, find_stat, set_stat, is_entry, distinct_on, stat_of,
  add_solved, groups_of, group_of, set_count, set_attempts, add_attempts,
}

-- The map of maps.
problems_of-insert :
    (u v : String) (m : List (String × UserProblemStat)) (out : Stats)
    → problems_of v (insert u m out) ≡ (if str_eq u v then m else problems_of v out)
unfolding problems_of
problems_of-insert u v m out = ground (arith, lookup-insert u v m out)

find_stat-set :
    (u p v q : String) (st : UserProblemStat) (out : Stats)
    → find_stat v q (set_stat u p st out)
      ≡ (if str_eq u v && str_eq p q then some st else find_stat v q out)
unfolding find_stat set_stat
find_stat-set u p v q st out =
    rw (problems_of-insert u v (insert p st (problems_of u out)) out)
      (elim (Bool-cases (str_eq u v)) [
        | inl e ↦ rw (e, (str_eq_iff u v).0 e) (lookup-insert p q st (problems_of v out))
        | inr e ↦ rw e refl
      ])

-- Rows without two of one participant and problem.
abbrev Unique : List Row → Type 0
Unique [] = Unit
Unique (x ∷ rows) = (any_row (is_entry x.user_id x.problem_id) rows ≡ false) × Unique rows

any_row-filter :
    (w keep : Row → Bool) (rows : List Row)
    → any_row w rows ≡ false
    → any_row w (filter keep rows) ≡ false
unfolding any_row
any_row-filter w keep [] h = refl
any_row-filter w keep (x ∷ rows) h = ground (arith, any_row-filter w keep rows)

any_row-dropped :
    (w : Row → Bool) (rows : List Row) → any_row w (filter (λ y. not (w y)) rows) ≡ false
unfolding any_row
any_row-dropped w [] = refl
any_row-dropped w (x ∷ rows) = ground (arith, any_row-dropped w rows)

Unique-filter : (keep : Row → Bool) (rows : List Row) → Unique rows → Unique (filter keep rows)
Unique-filter keep [] h = tt
Unique-filter keep (x ∷ rows) h = elim (Bool-cases (keep x)) [
  | inl e ↦
      rw e (
        any_row-filter (is_entry x.user_id x.problem_id) keep rows h.0,
        Unique-filter keep rows h.1,
      )
  | inr e ↦ rw e (Unique-filter keep rows h.1)
]

pub distinct_on-Unique : (rows : List Row) → Unique (distinct_on rows)
unfolding distinct_on
distinct_on-Unique [] = tt
distinct_on-Unique (x ∷ rows) = (
  any_row-dropped (is_entry x.user_id x.problem_id) (distinct_on rows),
  Unique-filter (λ y. not (is_entry x.user_id x.problem_id y)) (distinct_on rows)
      (distinct_on-Unique rows),
)

find_row-none : (w : Row → Bool) (rows : List Row) → any_row w rows ≡ false → find_row w rows ≡ none
unfolding any_row find_row
find_row-none w [] h = refl
find_row-none w (x ∷ rows) h = ground (arith, find_row-none w rows)

-- A test that no dropped row passes finds the same row.
find_row-filter :
    (w keep : Row → Bool) (rows : List Row)
    → ((x : Row) → keep x ≡ false → w x ≡ false)
    → find_row w (filter keep rows) ≡ find_row w rows
unfolding find_row
find_row-filter w keep [] h = refl
find_row-filter w keep (x ∷ rows) h = ground (arith, h x, find_row-filter w keep rows h)

abbrev pub with_attempts : ℕ → UserProblemStat → UserProblemStat
with_attempts n st = record st { attempts = pos n }

-- What the loops make of an entry.
abbrev pub placed : Option Row → Option UserProblemStat → Option UserProblemStat
placed none old = old
placed (some y) old = some (stat_of y)

abbrev pub counted : Option Row → ℕ → Option UserProblemStat → Option UserProblemStat
counted none n old = old
counted (some y) n old = Option.map (with_attempts n) old

module _ (u p : String) where
  is_entry_ne :
      (x y : Row)
      → is_entry u p x ≡ false
      → not (is_entry x.user_id x.problem_id y) ≡ false
      → is_entry u p y ≡ false
  is_entry_ne x y h k = ground (
    arith,
    str_eq_iff x.user_id u,
    str_eq_iff x.problem_id p,
    str_eq_iff y.user_id u,
    str_eq_iff y.problem_id p,
    str_eq_iff y.user_id x.user_id,
    str_eq_iff y.problem_id x.problem_id,
  )

  pub find_row-distinct_on :
      (rows : List Row) → find_row (is_entry u p) (distinct_on rows) ≡ find_row (is_entry u p) rows
  unfolding distinct_on find_row
  find_row-distinct_on [] = refl
  find_row-distinct_on (x ∷ rows) = elim (Bool-cases (is_entry u p x)) [
    | inl e ↦ rw e refl
    | inr e ↦ rw e (
        find_row-filter (is_entry u p) (λ y. not (is_entry x.user_id x.problem_id y))
          (distinct_on rows) (λ y. is_entry_ne x y e)
        ∙ find_row-distinct_on rows)
  ]

  is_entry-keys : (x : Row) → is_entry u p x ≡ true → (x.user_id ≡ u) × (x.problem_id ≡ p)
  is_entry-keys x e = ground (arith, str_eq_iff x.user_id u, str_eq_iff x.problem_id p)

  gone :
      (x : Row) (rows : List Row)
      → is_entry u p x ≡ true
      → any_row (is_entry x.user_id x.problem_id) rows ≡ false
      → any_row (is_entry u p) rows ≡ false
  gone x rows e h = let keys = is_entry-keys x e in rw (keys.0, keys.1) at h

  -- The loop over different participants and problems.
  pub find_stat-add_solved :
      (out : Stats) (rows : List Row)
      → Unique rows
      → find_stat u p (add_solved out rows)
        ≡ placed (find_row (is_entry u p) rows) (find_stat u p out)
  unfolding add_solved find_row
  find_stat-add_solved out [] h = refl
  find_stat-add_solved out (x ∷ rows) h =
      let out' = set_stat x.user_id x.problem_id (stat_of x) out in
      let set = find_stat-set x.user_id x.problem_id u p (stat_of x) out in
      elim (Bool-cases (is_entry u p x)) [
        | inl e ↦
            let unfound = find_row-none (is_entry u p) rows (gone x rows e h.0) in
            rw e (find_stat-add_solved out' rows h.1 ∙ rw unfound (set ∙ rw e refl))
        | inr e ↦
            let same : find_stat u p out' ≡ find_stat u p out = set ∙ rw e refl in
            rw e
              (find_stat-add_solved out' rows h.1 ∙ ap (placed (find_row (is_entry u p) rows)) same)
      ]

  find_stat-set_count :
      (out : Stats) (g : Group) (old : Option UserProblemStat)
      → find_stat g.user_id g.problem_id out ≡ old
      → find_stat u p (set_count out g old) ≡ (
          if is_group u p g
          then Option.map (with_attempts g.n) (find_stat u p out)
          else find_stat u p out)
  unfolding set_count
  find_stat-set_count out g old h = elim (Bool-cases (is_group u p g)) [
    | inl e ↦
        let user : g.user_id ≡ u = ground (arith, str_eq_iff g.user_id u) in
        let problem : g.problem_id ≡ p = ground (arith, str_eq_iff g.problem_id p) in
        rw e (here e old (rw (user, problem) at h))
    | inr e ↦ rw e (elsewhere old e)
  ]
    where
      here :
          is_group u p g ≡ true
          → (old : Option UserProblemStat) → find_stat u p out ≡ old
          → find_stat u p (set_count out g old) ≡ Option.map (with_attempts g.n) (find_stat u p out)
      here e none h = h ∙ rw h refl
      here e (some st) h =
          find_stat-set g.user_id g.problem_id u p (with_attempts g.n st) out ∙ rw (e, h) refl

      elsewhere :
          (old : Option UserProblemStat)
          → is_group u p g ≡ false
          → find_stat u p (set_count out g old) ≡ find_stat u p out
      elsewhere none e = refl
      elsewhere (some st) e =
          find_stat-set g.user_id g.problem_id u p (with_attempts g.n st) out ∙ rw e refl

  find_stat-set_attempts :
      (out : Stats) (g : Group)
      → find_stat u p (set_attempts out g) ≡ (
          if is_group u p g
          then Option.map (with_attempts g.n) (find_stat u p out)
          else find_stat u p out)
  unfolding set_attempts
  find_stat-set_attempts out g =
      find_stat-set_count out g (find_stat g.user_id g.problem_id out) refl

  -- The loop over groups of different participants and problems.
  pub find_stat-add_attempts :
      (out : Stats) (rows keys : List Row)
      → Unique keys
      → find_stat u p (add_attempts out (groups_of rows keys))
        ≡ counted
            (find_row (is_entry u p) keys)
            (length (filter (is_entry u p) rows))
            (find_stat u p out)
  unfolding add_attempts groups_of find_row
  find_stat-add_attempts out rows [] h = refl
  find_stat-add_attempts out rows (x ∷ keys) h =
      let out' = set_attempts out (group_of rows x) in
      let set = find_stat-set_attempts out (group_of rows x) in
      elim (Bool-cases (is_entry u p x)) [
        | inl e ↦
            let unfound = find_row-none (is_entry u p) keys (gone x keys e h.0) in
            let same = is_entry-keys x e in
            rw e (
              find_stat-add_attempts out' rows keys h.1
              ∙ rw unfound (set ∙ rw (e, same.0, same.1) refl))
        | inr e ↦ rw e (
            find_stat-add_attempts out' rows keys h.1
            ∙ ap (counted (find_row (is_entry u p) keys) (length (filter (is_entry u p) rows)))
                (set ∙ rw e refl))
      ]
