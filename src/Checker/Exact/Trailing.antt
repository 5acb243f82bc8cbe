-- ===== src/Checker/Exact/Trailing.antt =====
-- Exact comparison sees every byte but the line ends at the end.
use mathlib.Core.List.{reverse, reverse-append, reverse-cons, reverse-reverse}
use arena.Common.{
  ℕ, suc, ◌≡◌, ◌≢◌, ◌⊎◌, inl, inr, false, refl, sym, ap, ◌∙◌, ◌↔◌, true, some, List, [], ◌∷◌, ◌++◌,
  length, All, All-append, arith,
}
use arena.Checker.Compare.{accept}
use arena.Checker.Exact.{
  is_line_end, drop_line_ends, trim_trailing_newline, compare_bytes, check_exact,
}

abbrev pub IsLineEnd : ℕ → Type 0
IsLineEnd b = (b ≡ 10) ⊎ (b ≡ 13)

-- A text that is empty or ends in another byte.
abbrev pub IsTrimmed : List ℕ → Type 0
IsTrimmed text =
    (text ≡ []) ⊎ ((front : List ℕ) × (b : ℕ) × (text ≡ front ++ b ∷ []) × (b ≢ 10) × (b ≢ 13))

is_line_end-true : (b : ℕ) → IsLineEnd b → is_line_end b ≡ true
is_line_end-true b h = ground arith

drop_line_ends-append :
    (ends text : List ℕ) → All IsLineEnd ends → drop_line_ends (ends ++ text) ≡ drop_line_ends text
unfolding drop_line_ends
drop_line_ends-append [] text h = refl
drop_line_ends-append (b ∷ ends) text h =
    rw (is_line_end-true b h.0) (drop_line_ends-append ends text h.1)

All-reverse : (ends : List ℕ) → All IsLineEnd ends → All IsLineEnd (reverse ends)
All-reverse [] h = tt
All-reverse (b ∷ ends) h =
    rw (reverse-append (b ∷ []) ends)
      (All-append IsLineEnd (reverse ends) (b ∷ []) (All-reverse ends h.1) (h.0, tt))

-- Any number of line ends at the end is trimmed, not one at most.
pub trim-append :
    (text ends : List ℕ)
    → All IsLineEnd ends
    → trim_trailing_newline (text ++ ends) ≡ trim_trailing_newline text
unfolding trim_trailing_newline
trim-append text ends h =
    rw (reverse-append text ends)
      (ap reverse (drop_line_ends-append (reverse ends) (reverse text) (All-reverse ends h)))

compare_bytes-accept :
    (i : ℕ) (e a : List ℕ) → length e ≡ length a → (compare_bytes i e a ≡ accept) ↔ (e ≡ a)
unfolding compare_bytes
compare_bytes-accept i [] [] h = (λ _. refl, λ _. refl)
compare_bytes-accept i [] (a ∷ at) h = absurd (omega arith)
compare_bytes-accept i (e ∷ et) [] h = absurd (omega arith)
compare_bytes-accept i (e ∷ et) (a ∷ at) h =
    let ih = compare_bytes-accept (suc i) et at (omega arith) in
    (λ p. ground (arith, ih), λ p. ground (arith, ih))

trim-IsTrimmed : (text : List ℕ) → IsTrimmed text → trim_trailing_newline text ≡ text
unfolding trim_trailing_newline drop_line_ends
trim-IsTrimmed text (inl e) = rw e refl
trim-IsTrimmed text (inr (front, b, e, n, r)) =
    let kept : is_line_end b ≡ false = ground arith in
    rw (e, reverse-append front (b ∷ []), kept)
      (reverse-cons b (reverse front) ∙ ap (λ l. l ++ b ∷ []) (reverse-reverse front))

trim-all :
    (text ends : List ℕ)
    → IsTrimmed text
    → All IsLineEnd ends
    → trim_trailing_newline (text ++ ends) ≡ text
trim-all text ends t h = trim-append text ends h ∙ trim-IsTrimmed text t

check_exact-trimmed :
    (e a : List ℕ)
    → (check_exact (some e) (some a) ≡ accept) ↔ (trim_trailing_newline e ≡ trim_trailing_newline a)
unfolding check_exact
check_exact-trimmed e a =
    let c = compare_bytes-accept 0 (trim_trailing_newline e) (trim_trailing_newline a) in
    (λ h. ground (arith, c), λ h. ground (arith, c, ap length h))

-- Two readable files, each a text that does not end in a line feed or a carriage return with any
-- number of these behind it, are accepted exactly when the two texts are the same bytes.
pub check_exact-accept :
    (text text' ends ends' : List ℕ)
    → IsTrimmed text
    → IsTrimmed text'
    → All IsLineEnd ends
    → All IsLineEnd ends'
    → (check_exact (some (text ++ ends)) (some (text' ++ ends')) ≡ accept) ↔ (text ≡ text')
check_exact-accept text text' ends ends' t t' h h' =
    let c = check_exact-trimmed (text ++ ends) (text' ++ ends') in
    let first = trim-all text ends t h in
    let second = trim-all text' ends' t' h' in
    (λ a. sym first ∙ c.0 a ∙ second, λ e. c.1 (first ∙ e ∙ sym second))
