-- ===== src/Checker/Compare/Lockstep.antt =====
-- The loop of Token and Float ends, and compares the two lists of tokens one by one.
use mathlib.Core.Path.{ap₂}
use arena.Common.{
  ℕ, zero, suc, ◌+◌, ◌<◌, ◌≡◌, refl, ◌∙◌, Option, none, some, List, [], ◌∷◌, length, arith,
  Option-cases, inl, inr, ◌↔◌,
}
use arena.Checker.Scanner.{next}
use arena.Checker.Words.{
  tokens_from, tokens, tokens_from-step, tokens_from-end, tokens_from-enough, next-shorter,
}
use arena.Checker.Compare.{Outcome, accept, refuse, Rules, step, compare_tokens}

-- The comparison of two lists of tokens.
pub lockstep : Rules → ℕ → List (List ℕ) → List (List ℕ) → Outcome
lockstep r n [] [] = accept
lockstep r n [] (a ∷ acts) = refuse (r.on_extra n a)
lockstep r n (e ∷ es) [] = refuse (r.on_early n e)
lockstep r n (e ∷ es) (a ∷ acts) = elim (r.on_pair n e a) [
  | none ↦ lockstep r (n + 1) es acts
  | some m ↦ refuse m
]

-- One round of the loop, given what the rounds after it do.
step-lockstep :
    (r : Rules) (n : ℕ) (again : List ℕ → List ℕ → Option Outcome) (e a e' a' : List ℕ)
    (es acts : List (List ℕ))
    → again e' a' ≡ some (lockstep r (n + 1) es acts)
    → step r n again (some (e, e')) (some (a, a')) ≡ some (lockstep r n (e ∷ es) (a ∷ acts))
unfolding step lockstep
step-lockstep r n again e a e' a' es acts h = elim (Option-cases (r.on_pair n e a)) [
  | inl p ↦ rw (p, step, lockstep) h
  | inr (m, p) ↦ rw (p, step, lockstep)
]

compare_from :
    (r : Rules) (fuel n : ℕ) (e a : List ℕ)
    → length e < fuel
    → compare_tokens r fuel n e a ≡ some (lockstep r n (tokens_from fuel e) (tokens_from fuel a))
unfolding compare_tokens step lockstep
compare_from r zero n e a h = absurd (omega arith)
compare_from r (suc fuel) n e a h = elim (Option-cases (next e)) [
  | inl pe ↦ elim (Option-cases (next a)) [
    | inl pa ↦ rw (tokens_from-end fuel e pe, tokens_from-end fuel a pa, pe, pa)
    | inr (qa, pa) ↦ rw (tokens_from-end fuel e pe, tokens_from-step fuel a pa, pe, pa)
  ]
  | inr (qe, pe) ↦ elim (Option-cases (next a)) [
    | inl pa ↦ rw (tokens_from-step fuel e pe, tokens_from-end fuel a pa, pe, pa)
    | inr (qa, pa) ↦
        rw (tokens_from-step fuel e pe, tokens_from-step fuel a pa, pe, pa)
          (step-lockstep r n (compare_tokens r fuel (n + 1)) qe.0 qa.0 qe.1 qa.1 _ _
            (compare_from r fuel (n + 1) qe.1 qa.1 (omega (arith, next-shorter e pe))))
  ]
]

-- With more fuel than bytes the loop ends, and its answer is that of the two lists of tokens.
pub compare_tokens-lockstep :
    (r : Rules) (e a : List ℕ)
    → compare_tokens r (suc (length e + length a)) 0 e a ≡ some (lockstep r 0 (tokens e) (tokens a))
unfolding tokens
compare_tokens-lockstep r e a =
    let f = suc (length e + length a) in
    compare_from r f 0 e a (omega arith)
    ∙ ap₂ (λ x y. some (lockstep r 0 x y))
        (tokens_from-enough f (suc (length e)) e (omega arith) (omega arith))
        (tokens_from-enough f (suc (length a)) a (omega arith) (omega arith))

-- Two lists of tokens of one length, each pair of which raises no objection.
abbrev pub AllAgree : (List ℕ → List ℕ → Type 0) → List (List ℕ) → List (List ℕ) → Type 0
AllAgree R [] [] = Unit
AllAgree R (e ∷ es) (a ∷ acts) = R e a × AllAgree R es acts
AllAgree R _ _ = ⊥

-- If the rule for a pair of tokens decides `R`, `accept` means that all pairs are in `R`.
pub lockstep-accept :
    (R : List ℕ → List ℕ → Type 0) (r : Rules)
    → ((n : ℕ) (e a : List ℕ) → (r.on_pair n e a ≡ none) ↔ R e a)
    → (n : ℕ) (es acts : List (List ℕ)) → (lockstep r n es acts ≡ accept) ↔ AllAgree R es acts
unfolding lockstep
lockstep-accept R r d n [] [] = (λ _. tt, λ _. refl)
lockstep-accept R r d n [] (a ∷ acts) = (λ h. cc, λ h. absurd h)
lockstep-accept R r d n (e ∷ es) [] = (λ h. cc, λ h. absurd h)
lockstep-accept R r d n (e ∷ es) (a ∷ acts) = elim (Option-cases (r.on_pair n e a)) [
  | inl p ↦
      let rest = lockstep-accept R r d (n + 1) es acts in
      rw (p, lockstep) (λ h. ((d n e a).0 p, rest.0 h), λ h. rest.1 h.1)
  | inr (m, p) ↦ rw (p, lockstep) (λ h. cc, λ h. cc (p, (d n e a).1 h.0))
]
