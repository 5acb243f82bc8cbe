-- ===== src/Common/Ordering.antt =====
-- `ORDER BY` and `WHERE` on lists: insertion by a Boolean test, and predicates through both.
use mathlib.Core.Path.{◌≡◌}
use mathlib.Core.Logic.{inl, inr}
use mathlib.Core.List.{List, [], ◌∷◌}
use mathlib.Core.Bool.{Bool, true, false}
use arena.Common.Tests.{if◌then◌else◌, Bool-cases}
use arena.Common.Lists.{filter, All}

module _ {ℓ} {A : Type ℓ} where
  -- Before the first element that the new one may stand in front of.
  unfoldable pub insert_by : (A → A → Bool) → A → List A → List A
  insert_by before x [] = x ∷ []
  insert_by before x (y ∷ ys) =
      let more = insert_by before x ys in if before x y then x ∷ y ∷ ys else y ∷ more

  unfoldable pub order_by : (A → A → Bool) → List A → List A
  unfolding insert_by
  order_by before [] = []
  order_by before (x ∷ xs) = insert_by before x (order_by before xs)

  abbrev pub Sorted : (A → A → Bool) → List A → Type 0
  Sorted before [] = Unit
  Sorted before (x ∷ xs) = All (λ y. before x y ≡ true) xs × Sorted before xs

  pub filter-kept : (w : A → Bool) (xs : List A) → All (λ x. w x ≡ true) (filter w xs)
  filter-kept w [] = tt
  filter-kept w (x ∷ xs) = elim (Bool-cases (w x)) [
    | inl e ↦ rw e (e, filter-kept w xs)
    | inr e ↦ rw e (filter-kept w xs)
  ]

module _ {ℓ κ} {A : Type ℓ} (P : A → Type κ) where
  pub filter-All : (w : A → Bool) (xs : List A) → All P xs → All P (filter w xs)
  filter-All w [] h = tt
  filter-All w (x ∷ xs) h = elim (Bool-cases (w x)) [
    | inl e ↦ rw e (h.0, filter-All w xs h.1)
    | inr e ↦ rw e (filter-All w xs h.1)
  ]

  pub All-filter :
      (w : A → Bool) (xs : List A) → All P (filter w xs) → All (λ x. w x ≡ true → P x) xs
  All-filter w [] h = tt
  All-filter w (x ∷ xs) h = elim (Bool-cases (w x)) [
    | inl e ↦
        let parts : P x × All P (filter w xs) = rw e at h in (λ k. parts.0, All-filter w xs parts.1)
    | inr e ↦ (λ k. absurd (cc), All-filter w xs (rw e at h))
  ]

module _ {ℓ κ} {A : Type ℓ} (P : A → Type κ) (before : A → A → Bool) where
  insert_by-All : (x : A) (xs : List A) → P x → All P xs → All P (insert_by before x xs)
  unfolding insert_by
  insert_by-All x [] h hs = (h, tt)
  insert_by-All x (y ∷ xs) h hs = elim (Bool-cases (before x y)) [
    | inl e ↦ rw e (h, hs)
    | inr e ↦ rw e (hs.0, insert_by-All x xs h hs.1)
  ]

  All-insert_by : (x : A) (xs : List A) → All P (insert_by before x xs) → P x × All P xs
  unfolding insert_by
  All-insert_by x [] h = h
  All-insert_by x (y ∷ xs) h = elim (Bool-cases (before x y)) [
    | inl e ↦ rw e at h
    | inr e ↦
        let parts : P y × All P (insert_by before x xs) = rw e at h in
        let more = All-insert_by x xs parts.1 in (more.0, (parts.0, more.1))
  ]

  pub order_by-All : (xs : List A) → All P xs → All P (order_by before xs)
  unfolding order_by
  order_by-All [] h = tt
  order_by-All (x ∷ xs) h = insert_by-All x (order_by before xs) h.0 (order_by-All xs h.1)

  pub All-order_by : (xs : List A) → All P (order_by before xs) → All P xs
  unfolding order_by
  All-order_by [] h = tt
  All-order_by (x ∷ xs) h =
      let parts = All-insert_by x (order_by before xs) h in (parts.0, All-order_by xs parts.1)

-- An order that compares any two elements.
module _ {ℓ} {A : Type ℓ} (before : A → A → Bool)
    (total : (x y : A) → before x y ≡ false → before y x ≡ true)
    (trans : (x y z : A) → before x y ≡ true → before y z ≡ true → before x z ≡ true) where
  behind :
      (x y : A) (xs : List A)
      → before x y ≡ true
      → All (λ z. before y z ≡ true) xs
      → All (λ z. before x z ≡ true) xs
  behind x y [] h k = tt
  behind x y (z ∷ xs) h k = (trans x y z h k.0, behind x y xs h k.1)

  insert_by-Sorted :
      (x : A) (xs : List A) → Sorted before xs → Sorted before (insert_by before x xs)
  unfolding insert_by
  insert_by-Sorted x [] h = (tt, tt)
  insert_by-Sorted x (y ∷ xs) h = elim (Bool-cases (before x y)) [
    | inl e ↦ rw e ((e, behind x y xs e h.0), h)
    | inr e ↦ rw e (
      insert_by-All (λ z. before y z ≡ true) before x xs (total x y e) h.0,
      insert_by-Sorted x xs h.1,
    )
  ]

  pub order_by-Sorted : (xs : List A) → Sorted before (order_by before xs)
  unfolding order_by
  order_by-Sorted [] = tt
  order_by-Sorted (x ∷ xs) = insert_by-Sorted x (order_by before xs) (order_by-Sorted xs)
