-- ===== src/Checker/Token/Format.antt =====
-- The token checker accepts exactly equal tokens, so it does not see the format.
use arena.Common.{
  ℕ, ◌≤◌, ◌≡◌, refl, sym, ap, ◌∙◌, ◌↔◌, true, none, some, List, [], ◌∷◌, ◌++◌, length, All, arith,
}
use arena.Checker.Scanner.{max_token}
use arena.Checker.Words.{tokens}
use arena.Checker.Words.Layout.{
  IsPlain, IsSpace, Piece, IsLaidOut, spread, words, tokens-spread, tokens-oversized,
}
use arena.Checker.Compare.{Outcome, accept}
use arena.Checker.Compare.Lockstep.{lockstep, compare_tokens-lockstep, AllAgree, lockstep-accept}
use arena.Checker.Token.{same_bytes, token_pair, token_rules, check_token}

pub same_bytes_iff : (xs ys : List ℕ) → (same_bytes xs ys ≡ true) ↔ (xs ≡ ys)
unfolding same_bytes
same_bytes_iff [] [] = (λ _. refl, λ _. refl)
same_bytes_iff [] (y ∷ ys) = (λ h. cc, λ h. cc)
same_bytes_iff (x ∷ xs) [] = (λ h. cc, λ h. cc)
same_bytes_iff (x ∷ xs) (y ∷ ys) =
    let ih = same_bytes_iff xs ys in (λ h. ground (arith, ih), λ h. ground (arith, ih))

token_pair_iff : (n : ℕ) (e a : List ℕ) → (token_pair n e a ≡ none) ↔ (e ≡ a)
unfolding token_pair
token_pair_iff n e a =
    (λ h. ground (arith, same_bytes_iff e a), λ h. ground (arith, same_bytes_iff e a))

AllAgree-eq : (es acts : List (List ℕ)) → AllAgree ◌≡◌ es acts ↔ (es ≡ acts)
AllAgree-eq [] [] = (λ _. refl, λ _. tt)
AllAgree-eq [] (a ∷ acts) = (λ h. absurd h, λ h. cc)
AllAgree-eq (e ∷ es) [] = (λ h. absurd h, λ h. cc)
AllAgree-eq (e ∷ es) (a ∷ acts) =
    let ih = AllAgree-eq es acts in (λ h. cc (h.0, ih.0 h.1), λ h. (cc, ih.1 (cc)))

-- The check ends, and it accepts exactly when repeated calls of `next` deliver the same.
check_token-tokens :
    (expected actual : List ℕ)
    → (o : Outcome) × (check_token (some expected) (some actual) ≡ some o)
      × ((o ≡ accept) ↔ (tokens expected ≡ tokens actual))
unfolding check_token
check_token-tokens expected actual =
    let same = lockstep-accept ◌≡◌ token_rules token_pair_iff 0 (tokens expected) (tokens actual) in
    let eq = AllAgree-eq (tokens expected) (tokens actual) in
    (
      lockstep token_rules 0 (tokens expected) (tokens actual),
      compare_tokens-lockstep token_rules expected actual,
      (λ h. eq.0 (same.0 h), λ h. same.1 (eq.1 h)),
    )

-- On two files of ASCII words, each shorter than 2^24 bytes, with ASCII spaces before, between and
-- behind them, the check ends, and it accepts exactly when the words of both are the same in the
-- same order, whatever the spaces and line ends of each are.
pub check_token-accept :
    (lead lead' : List ℕ) (pieces pieces' : List Piece)
    → All IsSpace lead
    → All IsSpace lead'
    → IsLaidOut pieces
    → IsLaidOut pieces'
    → (o : Outcome) × (check_token (some (lead ++ spread pieces)) (some (lead' ++ spread pieces'))
        ≡ some o)
      × ((o ≡ accept) ↔ (words pieces ≡ words pieces'))
check_token-accept lead lead' pieces pieces' g g' h h' =
    let (o, runs, iff) = check_token-tokens (lead ++ spread pieces) (lead' ++ spread pieces') in
    let first = tokens-spread lead pieces g h in
    let second = tokens-spread lead' pieces' g' h' in
    (o, runs, (λ a. sym first ∙ iff.0 a ∙ second, λ e. iff.1 (first ∙ e ∙ sym second)))

-- A scan that meets a word of 2^24 bytes or more counts as the end of the file: two files that
-- begin, behind ASCII spaces, with so many ASCII bytes that are no spaces are accepted, however these
-- differ and whatever follows them.
pub check_token-oversized :
    (lead lead' big big' rest rest' : List ℕ)
    → All IsSpace lead
    → All IsSpace lead'
    → All IsPlain big
    → All IsPlain big'
    → max_token ≤ length big
    → max_token ≤ length big'
    → check_token (some (lead ++ (big ++ rest))) (some (lead' ++ (big' ++ rest'))) ≡ some accept
check_token-oversized lead lead' big big' rest rest' g g' p p' h h' =
    let (o, runs, iff) = check_token-tokens (lead ++ (big ++ rest)) (lead' ++ (big' ++ rest')) in
    runs
    ∙ ap some (
        iff.1
          (tokens-oversized lead big rest g p h ∙ sym (tokens-oversized lead' big' rest' g' p' h')))
