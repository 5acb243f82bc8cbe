-- ===== src/Checker/Words.antt =====
-- The tokens of a text, and what they are for a text laid out with ASCII spaces.
pub mod Layout
use arena.Common.{
  ℕ, zero, suc, ◌+◌, ◌^◌, ◌≤◌, ◌<◌, leb, ◌==◌, Bool, true, false, ◌≡◌, ◌≢◌, ◌⊎◌, inl, inr, refl,
  sym, ap, ◌∙◌, Option, none, some, List, [], ◌∷◌, ◌++◌, map, length, length-append, All, arith,
  Bool-cases, Option-cases, if◌then◌else◌,
}
use arena.Checker.Scanner.{
  is_ascii_space, space_width, skip_spaces, drop, take_word, max_token, deliver, next,
}

-- The tokens that repeated calls of `next` deliver.
unfoldable pub tokens_from : ℕ → List ℕ → List (List ℕ)
tokens_from zero text = []
tokens_from (suc fuel) text = elim (next text) [
  | none ↦ []
  | some (word, rest) ↦ word ∷ tokens_from fuel rest
]

unfoldable pub tokens : List ℕ → List (List ℕ)
unfolding tokens_from
tokens text = tokens_from (suc (length text)) text

length-skip_spaces : (k : ℕ) (text : List ℕ) → length (skip_spaces k text) ≤ length text
unfolding skip_spaces
length-skip_spaces k [] = omega arith
length-skip_spaces (suc k) (b ∷ rest) = omega (arith, length-skip_spaces k rest)
length-skip_spaces zero (b ∷ rest) = go (space_width (b ∷ rest)) (λ k. length-skip_spaces k rest)
  where
    go :
        (w : ℕ)
        → ((k : ℕ) → length (skip_spaces k rest) ≤ length rest)
        → length (elim w as (λ _. List ℕ) [ zero ↦ b ∷ rest | suc k ↦ skip_spaces k rest ])
          ≤ suc (length rest)
    go zero h = omega arith
    go (suc k) h = omega (arith, h k)

length-drop-le : (k : ℕ) (xs : List ℕ) → length (drop k xs) ≤ length xs
length-drop-le zero xs = omega arith
length-drop-le (suc k) [] = omega arith
length-drop-le (suc k) (x ∷ xs) = omega (arith, length-drop-le k xs)

length-take_word :
    (text : List ℕ) → length (take_word text).0 + length (take_word text).1 ≤ length text
unfolding take_word
length-take_word [] = omega arith
length-take_word (b ∷ rest) = go (space_width (b ∷ rest)) (length-take_word rest)
  where
    go :
        (w : ℕ)
        → length (take_word rest).0 + length (take_word rest).1 ≤ length rest
        → let cut = elim w as (λ _. List ℕ × List ℕ) [
          | zero ↦ (b ∷ (take_word rest).0, (take_word rest).1)
          | suc k ↦ ([], drop k rest)
        ] in
          length cut.0 + length cut.1 ≤ suc (length rest)
    go zero h = omega arith
    go (suc k) h = omega (arith, length-drop-le k rest)

deliver-some :
    (p : List ℕ × List ℕ) {w rest : List ℕ}
    → deliver p ≡ some (w, rest)
    → (p.0 ≡ w) × (p.1 ≡ rest) × (0 < length w)
deliver-some ([], r) h = cc
deliver-some (b ∷ word, r) h = ground arith

-- A token leaves fewer bytes behind.
pub next-shorter :
    (text : List ℕ) {w rest : List ℕ} → next text ≡ some (w, rest) → length rest < length text
unfolding next
next-shorter text h =
    let (p, q, r) = deliver-some (take_word (skip_spaces 0 text)) h in
    ground (arith, p, q, r, length-take_word (skip_spaces 0 text), length-skip_spaces 0 text)

pub tokens_from-step :
    (fuel : ℕ) (text : List ℕ) {w rest : List ℕ}
    → next text ≡ some (w, rest)
    → tokens_from (suc fuel) text ≡ w ∷ tokens_from fuel rest
unfolding tokens_from
tokens_from-step fuel text h = rw (h, tokens_from)

pub tokens_from-end :
    (fuel : ℕ) (text : List ℕ) → next text ≡ none → tokens_from (suc fuel) text ≡ []
unfolding tokens_from
tokens_from-end fuel text h = rw (h, tokens_from)

-- Fuel beyond the length of the text changes nothing.
pub tokens_from-enough :
    (f g : ℕ) (text : List ℕ)
    → length text < f
    → length text < g
    → tokens_from f text ≡ tokens_from g text
tokens_from-enough zero g text h k = absurd (omega arith)
tokens_from-enough (suc f) zero text h k = absurd (omega arith)
tokens_from-enough (suc f) (suc g) text h k = elim (Option-cases (next text)) [
  | inl e ↦ tokens_from-end f text e ∙ sym (tokens_from-end g text e)
  | inr (p, e) ↦
      let shorter = next-shorter text e in
      tokens_from-step f text e
      ∙ ap (λ ts. p.0 ∷ ts) (tokens_from-enough f g p.1 (omega arith) (omega arith))
      ∙ sym (tokens_from-step g text e)
]
