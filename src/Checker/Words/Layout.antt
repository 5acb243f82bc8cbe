-- ===== src/Checker/Words/Layout.antt =====
-- The tokens of a text that is words with ASCII spaces between them.
use mathlib.Core.List.{append-nil}
use arena.Common.{
  ℕ, zero, suc, ◌≤◌, ◌<◌, true, false, ◌≡◌, ◌≢◌, ◌⊎◌, refl, ap, ◌∙◌, none, some, List, [], ◌∷◌,
  ◌++◌, map, length, length-append, All, arith,
}
use arena.Checker.Scanner.{
  is_ascii_space, space_width, skip_spaces, take_word, max_token, deliver, next,
}
use arena.Checker.Words.{tokens_from, tokens, tokens_from-step, tokens_from-end}

-- A byte of a word: ASCII and no space.
abbrev pub IsPlain : ℕ → Type 0
IsPlain b = (b < 128) × (b ≢ 32) × ((b < 9) ⊎ (13 < b))

-- A blank, a tab, a line end, a vertical tab, a form feed or a carriage return.
abbrev pub IsSpace : ℕ → Type 0
IsSpace b = (b ≡ 32) ⊎ ((9 ≤ b) × (b ≤ 13))

is_ascii_space-plain : (b : ℕ) → IsPlain b → is_ascii_space b ≡ false
unfolding is_ascii_space
is_ascii_space-plain b h = ground arith

is_ascii_space-space : (b : ℕ) → IsSpace b → is_ascii_space b ≡ true
unfolding is_ascii_space
is_ascii_space-space b h = ground arith

-- Words that the scanner takes, each with the spaces behind it; only the last may have none.
abbrev pub Piece : Type 0
Piece = List ℕ × List ℕ

abbrev pub IsLaidOut : List Piece → Type 0
IsLaidOut [] = Unit
IsLaidOut ((word, gap) ∷ pieces) =
    (0 < length word)
    × (length word < max_token)
    × All IsPlain word
    × All IsSpace gap
    × ((0 < length gap) ⊎ (pieces ≡ []))
    × IsLaidOut pieces

abbrev pub spread : List Piece → List ℕ
spread [] = []
spread ((word, gap) ∷ pieces) = word ++ (gap ++ spread pieces)

abbrev pub words : List Piece → List (List ℕ)
words = map (λ p. p.0)

space_width-plain : (b : ℕ) (rest : List ℕ) → IsPlain b → space_width (b ∷ rest) ≡ 0
unfolding space_width
space_width-plain b [] h = ground (arith, is_ascii_space-plain b h)
space_width-plain b (c ∷ []) h = ground (arith, is_ascii_space-plain b h)
space_width-plain b (c ∷ d ∷ rest) h = ground (arith, is_ascii_space-plain b h)

space_width-space : (b : ℕ) (rest : List ℕ) → IsSpace b → space_width (b ∷ rest) ≡ 1
unfolding space_width
space_width-space b [] h = rw (is_ascii_space-space b h)
space_width-space b (c ∷ []) h = rw (is_ascii_space-space b h)
space_width-space b (c ∷ d ∷ rest) h = rw (is_ascii_space-space b h)

skip_spaces-gap :
    (gap text : List ℕ) → All IsSpace gap → skip_spaces 0 (gap ++ text) ≡ skip_spaces 0 text
unfolding skip_spaces
skip_spaces-gap [] text h = refl
skip_spaces-gap (b ∷ gap) text h =
    rw (space_width-space b (gap ++ text) h.0, skip_spaces) (skip_spaces-gap gap text h.1)

skip_spaces-plain : (b : ℕ) (rest : List ℕ) → IsPlain b → skip_spaces 0 (b ∷ rest) ≡ b ∷ rest
unfolding skip_spaces
skip_spaces-plain b rest h = rw (space_width-plain b rest h, skip_spaces)

take_word-gap :
    (word : List ℕ) (s : ℕ) (rest : List ℕ)
    → All IsPlain word
    → IsSpace s
    → take_word (word ++ s ∷ rest) ≡ (word, rest)
unfolding take_word
take_word-gap [] s rest h k = rw (space_width-space s rest k, take_word)
take_word-gap (b ∷ word) s rest h k =
    rw (space_width-plain b (word ++ s ∷ rest) h.0, take_word)
      (rw (take_word-gap word s rest h.1 k))

take_word-end : (word : List ℕ) → All IsPlain word → take_word word ≡ (word, [])
unfolding take_word
take_word-end [] h = refl
take_word-end (b ∷ word) h =
    rw (space_width-plain b word h.0, take_word) (rw (take_word-end word h.1))

next-none : (gap : List ℕ) → All IsSpace gap → next (gap ++ []) ≡ none
unfolding next
next-none gap h = rw (skip_spaces-gap gap [] h)

next-word :
    (gap word : List ℕ) (rest behind : List ℕ)
    → All IsSpace gap
    → All IsPlain word
    → 0 < length word
    → length word < max_token
    → take_word (word ++ rest) ≡ (word, behind)
    → next (gap ++ (word ++ rest)) ≡ some (word, behind)
unfolding next
next-word gap [] rest behind hg hw pw lw t = absurd (omega arith)
next-word gap (b ∷ word) rest behind hg hw pw lw t =
    rw (skip_spaces-gap gap (b ∷ word ++ rest) hg, skip_spaces-plain b (word ++ rest) hw.0, t)
      (ground arith)

tokens_from-nil : (fuel : ℕ) → tokens_from fuel [] ≡ []
unfolding tokens_from next skip_spaces take_word
tokens_from-nil zero = refl
tokens_from-nil (suc fuel) = refl

tokens_from-spread :
    (fuel : ℕ) (gap : List ℕ) (pieces : List Piece)
    → length pieces < fuel
    → All IsSpace gap
    → IsLaidOut pieces
    → tokens_from fuel (gap ++ spread pieces) ≡ words pieces
tokens_from-spread zero gap pieces f g h = absurd (omega arith)
tokens_from-spread (suc fuel) gap [] f g h = tokens_from-end fuel (gap ++ []) (next-none gap g)
tokens_from-spread (suc fuel) gap ((word, []) ∷ []) f g (pw, lw, hw, hg, e, h) =
    tokens_from-step fuel (gap ++ (word ++ []))
      (next-word gap word [] [] g hw pw lw (rw append-nil (take_word-end word hw)))
    ∙ ap (λ ts. word ∷ ts) (tokens_from-nil fuel)
tokens_from-spread (suc fuel) gap ((word, []) ∷ p ∷ pieces) f g (pw, lw, hw, hg, e, h) =
    absurd (ground arith)
tokens_from-spread (suc fuel) gap ((word, s ∷ after) ∷ pieces) f g (pw, lw, hw, hg, e, h) =
    tokens_from-step fuel (gap ++ (word ++ s ∷ (after ++ spread pieces))) (
      next-word gap word (s ∷ (after ++ spread pieces)) (after ++ spread pieces) g hw pw lw
        (take_word-gap word s (after ++ spread pieces) hw hg.0))
    ∙ ap (λ ts. word ∷ ts) (tokens_from-spread fuel after pieces (omega arith) hg.1 h)

length-spread : (pieces : List Piece) → IsLaidOut pieces → length pieces ≤ length (spread pieces)
length-spread [] h = omega arith
length-spread ((word, gap) ∷ pieces) h = omega (
  arith,
  length-append word (gap ++ spread pieces),
  length-append gap (spread pieces),
  length-spread pieces h.5,
  h.0,
)

-- The tokens of a text are its words, however many tabs, blanks and line ends stand before,
-- between and behind them: for words of ASCII bytes, each shorter than 2^24.
pub tokens-spread :
    (gap : List ℕ) (pieces : List Piece)
    → All IsSpace gap
    → IsLaidOut pieces
    → tokens (gap ++ spread pieces) ≡ words pieces
unfolding tokens
tokens-spread gap pieces g h =
    tokens_from-spread (suc (length (gap ++ spread pieces))) gap pieces
      (omega (arith, length-append gap (spread pieces), length-spread pieces h)) g h

-- The word that a text begins with is no shorter than its first plain bytes.
take_word-longer :
    (word rest : List ℕ) → All IsPlain word → length word ≤ length (take_word (word ++ rest)).0
unfolding take_word
take_word-longer [] rest h = omega arith
take_word-longer (b ∷ word) rest h =
    rw (space_width-plain b (word ++ rest) h.0, take_word)
      (omega (arith, take_word-longer word rest h.1))

deliver-oversized : (found : List ℕ × List ℕ) → max_token ≤ length found.0 → deliver found ≡ none
deliver-oversized ([], rest) h = refl
deliver-oversized (b ∷ word, rest) h = ground arith

next-oversized :
    (gap word rest : List ℕ)
    → All IsSpace gap
    → All IsPlain word
    → max_token ≤ length word
    → next (gap ++ (word ++ rest)) ≡ none
unfolding next
next-oversized gap [] rest g h m = absurd (omega arith)
next-oversized gap (b ∷ word) rest g h m =
    rw (skip_spaces-gap gap (b ∷ word ++ rest) g, skip_spaces-plain b (word ++ rest) h.0)
      (deliver-oversized (take_word (b ∷ word ++ rest))
        (omega (arith, take_word-longer (b ∷ word) rest h)))

-- A text that begins with a word of 2^24 bytes or more, behind any spaces, has no tokens.
pub tokens-oversized :
    (gap word rest : List ℕ)
    → All IsSpace gap
    → All IsPlain word
    → max_token ≤ length word
    → tokens (gap ++ (word ++ rest)) ≡ []
unfolding tokens
tokens-oversized gap word rest g h m =
    tokens_from-end (length (gap ++ (word ++ rest))) (gap ++ (word ++ rest))
      (next-oversized gap word rest g h m)
