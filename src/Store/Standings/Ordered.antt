-- ===== src/Store/Standings/Ordered.antt =====
-- The rows that the ordered answers of `ContestStats` begin with.
use arena.Common.{
  ◌≤ℤ◌, Bool, true, false, ◌≡◌, refl, subst, inl, inr, none, some, List, [], ◌∷◌, filter, All,
  arith, Bool-cases, Sorted,
}
use arena.Store.{Row, find_row}
use arena.Store.Standings.{cpu_first}

module _ {κ} (P : Row → Type κ) where
  pub All-found :
      (w : Row → Bool) (rows : List Row) (y : Row)
      → All P rows
      → find_row w rows ≡ some y
      → P y × (w y ≡ true)
  unfolding find_row
  All-found w [] y h e = absurd (cc)
  All-found w (x ∷ rows) y h e = elim (Bool-cases (w x)) [
    | inl k ↦
        let same : x ≡ y = ground (arith, k, e) in subst (λ z. P z × (w z ≡ true)) same (h.0, k)
    | inr k ↦ All-found w rows y h.1 (rw k at e)
  ]

pub All-unfound :
    (w : Row → Bool) (rows : List Row)
    → find_row w rows ≡ none
    → All (λ x. w x ≡ false) rows × (filter w rows ≡ [])
unfolding find_row
All-unfound w [] h = (tt, refl)
All-unfound w (x ∷ rows) h = elim (Bool-cases (w x)) [
  | inl e ↦ absurd (ground (arith, h))
  | inr e ↦ let rest = All-unfound w rows (rw e at h) in ((e, rest.0), rw e rest.1)
]

cpu_first-≤ : (x y : Row) → cpu_first x y ≡ true → x.cpu_ms ≤ℤ y.cpu_ms
unfolding cpu_first
cpu_first-≤ x y h = ground arith

-- The first row of sorted ones that passes a test is the least that does.
pub found-least :
    (w : Row → Bool) (rows : List Row) (y : Row)
    → Sorted cpu_first rows
    → find_row w rows ≡ some y
    → All (λ x. w x ≡ true → y.cpu_ms ≤ℤ x.cpu_ms) rows
unfolding find_row
found-least w [] y h e = tt
found-least w (x ∷ rows) y h e = elim (Bool-cases (w x)) [
  | inl k ↦
      let same : x ≡ y = ground (arith, k, e) in
      subst (λ z. All (λ x. w x ≡ true → z.cpu_ms ≤ℤ x.cpu_ms) (x ∷ rows)) same
        (λ t. ground arith, weaker rows h.0)
  | inr k ↦ (λ t. absurd (cc), found-least w rows y h.1 (rw k at e))
]
  where
    weaker :
        (rows : List Row)
        → All (λ y. cpu_first x y ≡ true) rows
        → All (λ y. w y ≡ true → x.cpu_ms ≤ℤ y.cpu_ms) rows
    weaker [] h = tt
    weaker (z ∷ rows) h = (λ t. cpu_first-≤ x z h.0, weaker rows h.1)
