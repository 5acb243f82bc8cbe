-- ===== src/Checker/Float/Tolerance.antt =====
-- What the float checker accepts.
use mathlib.Core.Path.{ap₂}
use arena.Common.{
  ℕ, sym, subst, ◌∙◌, true, false, ◌≡◌, ◌↔◌, ◌⊎◌, inl, inr, none, some, List, ◌++◌, All, arith,
  Bool-cases, Option-cases,
}
use arena.Checker.Words.Layout.{IsSpace, Piece, IsLaidOut, spread, words, tokens-spread}
use arena.Checker.Compare.{Outcome, accept}
use arena.Checker.Compare.Lockstep.{lockstep, compare_tokens-lockstep, AllAgree, lockstep-accept}
use arena.Checker.Token.Format.{same_bytes_iff}
use arena.Checker.Float.{
  Float64, epsilon_of, abs_error, rel_error, text_pair, number_pair, float_pair, float_rules,
  check_float,
}

module _ (fl : Float64) where
  open fl use {Float}

  -- Within the tolerance, absolutely or relatively.
  abbrev pub IsClose : Float → Float → Float → Type 0
  IsClose eps ev av =
      (fl.is_finite av ≡ true)
      × ((fl.gt (abs_error fl ev av) eps ≡ false) ⊎ (fl.gt (rel_error fl ev av) eps ≡ false))

  -- Two numbers that are close, or two equal texts of which one is no number.
  abbrev pub Matches : Float → List ℕ → List ℕ → Type 0
  Matches eps e a =
      ((ev : Float) × (av : Float) × (fl.parse e ≡ some ev)
        × (fl.parse a ≡ some av)
        × IsClose eps ev av)
      ⊎ (((fl.parse e ≡ none) ⊎ (fl.parse a ≡ none)) × (e ≡ a))

  number_pair-IsClose :
      (eps : Float) (n : ℕ) (ev av : Float)
      → (number_pair fl eps n ev av ≡ none) ↔ IsClose eps ev av
  unfolding number_pair
  number_pair-IsClose eps n ev av =
      (λ h. (ground arith, within h), λ h. elim h.1 [ inl a ↦ ground arith | inr r ↦ ground arith ])
    where
      within :
          number_pair fl eps n ev av ≡ none
          → (fl.gt (abs_error fl ev av) eps ≡ false) ⊎ (fl.gt (rel_error fl ev av) eps ≡ false)
      within h = elim (Bool-cases (fl.gt (abs_error fl ev av) eps)) [
        | inr a ↦ inl a
        | inl a ↦ inr (ground arith)
      ]

  text_pair_iff : (n : ℕ) (e a : List ℕ) → (text_pair fl n e a ≡ none) ↔ (e ≡ a)
  unfolding text_pair
  text_pair_iff n e a =
      (λ h. ground (arith, same_bytes_iff e a), λ h. ground (arith, same_bytes_iff e a))

  Matches-text :
      (eps : Float) (n : ℕ) (e a : List ℕ)
      → (fl.parse e ≡ none) ⊎ (fl.parse a ≡ none)
      → float_pair fl eps n e a ≡ text_pair fl n e a
      → (float_pair fl eps n e a ≡ none) ↔ Matches eps e a
  Matches-text eps n e a o same = (
    λ h. inr (o, (text_pair_iff n e a).0 (sym same ∙ h)),
    λ m. elim m [
      | inl (ev, av, p, q, c) ↦ elim o [ inl f ↦ absurd (cc) | inr f ↦ absurd (cc) ]
      | inr (f, eq) ↦ same ∙ (text_pair_iff n e a).1 eq
    ],
  )

  Matches-number :
      (eps : Float) (n : ℕ) (e a : List ℕ) (ev av : Float)
      → fl.parse e ≡ some ev
      → fl.parse a ≡ some av
      → float_pair fl eps n e a ≡ number_pair fl eps n ev av
      → (float_pair fl eps n e a ≡ none) ↔ Matches eps e a
  Matches-number eps n e a ev av p q same = (
    λ h. inl (ev, av, p, q, (number_pair-IsClose eps n ev av).0 (sym same ∙ h)),
    λ m. elim m [
      | inl (ev', av', p', q', c) ↦
          same
          ∙ (number_pair-IsClose eps n ev av).1
              (subst (λ x. IsClose eps x av) (cc) (subst (λ x. IsClose eps ev' x) (cc) c))
      | inr (f, eq) ↦ elim f [ inl g ↦ absurd (cc) | inr g ↦ absurd (cc) ]
    ],
  )

  float_pair-Matches :
      (eps : Float) (n : ℕ) (e a : List ℕ) → (float_pair fl eps n e a ≡ none) ↔ Matches eps e a
  unfolding float_pair
  float_pair-Matches eps n e a = elim (Option-cases (fl.parse e)) [
    | inl p ↦ Matches-text eps n e a (inl p) (ground arith)
    | inr (ev, p) ↦ elim (Option-cases (fl.parse a)) [
      | inl q ↦ Matches-text eps n e a (inr q) (ground arith)
      | inr (av, q) ↦ Matches-number eps n e a ev av p q (ground arith)
    ]
  ]

  -- On two files of ASCII words, each shorter than 2^24 bytes, with ASCII spaces before, between
  -- and behind them, the check ends, and it accepts exactly when both hold equally many words and
  -- each matches the one at its place: two numbers with the actual one finite and the absolute or
  -- the relative error not above the tolerance, or two equal texts of which one is no number.
  pub check_float-accept :
      (eps : Float) (lead lead' : List ℕ) (pieces pieces' : List Piece)
      → All IsSpace lead
      → All IsSpace lead'
      → IsLaidOut pieces
      → IsLaidOut pieces'
      → (o : Outcome) × (check_float fl eps
            (some (lead ++ spread pieces))
            (some (lead' ++ spread pieces'))
          ≡ some o)
        × ((o ≡ accept) ↔ AllAgree (Matches (epsilon_of fl eps)) (words pieces) (words pieces'))
  unfolding check_float
  check_float-accept eps lead lead' pieces pieces' g g' h h' =
      let r = float_rules fl (epsilon_of fl eps) in
      let e = tokens-spread lead pieces g h in
      let a = tokens-spread lead' pieces' g' h' in
      (
        lockstep r 0 (words pieces) (words pieces'),
        compare_tokens-lockstep r (lead ++ spread pieces) (lead' ++ spread pieces')
            ∙ ap₂ (λ x y. some (lockstep r 0 x y)) e a,
        lockstep-accept (Matches (epsilon_of fl eps)) r (float_pair-Matches (epsilon_of fl eps)) 0
            (words pieces) (words pieces'),
      )
