-- ===== src/Judge/Sanitize.antt =====
-- `sanitize` of internal/judge/judge.go, on the bytes of a text. Ranging over a string decodes
-- UTF-8: a byte that begins no valid sequence is read as U+FFFD, whose bytes are 239 191 189. (The
-- control characters of two bytes, U+0080 to U+009F, are kept, and what stands behind an ESC too.)
use arena.Common.{
  ℕ, zero, suc, ◌==◌, leb, ltb, ◌≤◌, ◌<◌, ◌≢◌, ◌⊎◌, ap, ◌∙◌, ◌++◌, Bool, true, false, ◌&&◌, ◌||◌,
  not, ◌≡◌, refl, List, [], ◌∷◌, All, if◌then◌else◌, arith,
}

abbrev pub between : ℕ → ℕ → ℕ → Bool
between lo hi x = leb lo x && leb x hi

abbrev pub is_cont : ℕ → Bool
is_cont = between 128 191

abbrev pub is_rune2 : ℕ → ℕ → Bool
is_rune2 b c = between 194 223 b && is_cont c

-- No overlong forms, no surrogates, nothing above U+10FFFF.
abbrev pub is_rune3 : ℕ → ℕ → ℕ → Bool
is_rune3 b c d =
    ((b == 224 && between 160 191 c)
      || (b == 237 && between 128 159 c)
      || (between 225 239 b && not (b == 237) && is_cont c))
    && is_cont d

abbrev pub is_rune4 : ℕ → ℕ → ℕ → ℕ → Bool
is_rune4 b c d e =
    ((b == 240 && between 144 191 c)
      || (b == 244 && between 128 143 c)
      || (between 241 243 b && is_cont c))
    && is_cont d
    && is_cont e

-- How many bytes follow the first one of the sequence that a text begins with, 0 if there is none.
unfoldable pub tail_width : List ℕ → ℕ
tail_width [] = 0
tail_width (b ∷ []) = 0
tail_width (b ∷ c ∷ []) = if is_rune2 b c then 1 else 0
tail_width (b ∷ c ∷ d ∷ []) = if is_rune2 b c then 1 else if is_rune3 b c d then 2 else 0
tail_width (b ∷ c ∷ d ∷ e ∷ rest) =
    if is_rune2 b c then 1 else if is_rune3 b c d then 2 else if is_rune4 b c d e then 3 else 0

-- The ASCII characters that are dropped.
abbrev pub is_control : ℕ → Bool
is_control b = not (b == 10 || b == 9) && (ltb b 32 || b == 127)

-- `k` bytes of the current sequence are still to be copied.
unfoldable pub sanitize : ℕ → List ℕ → List ℕ
unfolding tail_width
sanitize k [] = []
sanitize (suc k) (b ∷ rest) = b ∷ sanitize k rest
sanitize zero (b ∷ rest) = elim (ltb b 128) [
  | true ↦ let more = sanitize zero rest in if is_control b then more else b ∷ more
  | false ↦ elim (tail_width (b ∷ rest)) [
    | zero ↦ 239 ∷ 191 ∷ 189 ∷ sanitize zero rest
    | suc k ↦ b ∷ sanitize (suc k) rest
  ]
]

-- A tab, a line feed, or a byte that is no control character of ASCII.
abbrev pub IsHarmless : ℕ → Type 0
IsHarmless b = (b ≡ 9) ⊎ (b ≡ 10) ⊎ ((32 ≤ b) × (b ≢ 127))

-- The bytes still to be copied are no ASCII.
abbrev Pending : ℕ → List ℕ → Type 0
Pending zero text = Unit
Pending (suc k) [] = Unit
Pending (suc k) (b ∷ rest) = (128 ≤ b) × Pending k rest

Pending-nil : (k : ℕ) → Pending k []
Pending-nil zero = tt
Pending-nil (suc k) = tt

tail_width-Pending :
    (b : ℕ) (rest : List ℕ) (k : ℕ) → tail_width (b ∷ rest) ≡ suc k → Pending (suc k) rest
unfolding tail_width
tail_width-Pending b [] k e = absurd (ground arith)
tail_width-Pending b (c ∷ []) k e = (ground arith, Pending-nil k)
tail_width-Pending b (c ∷ d ∷ []) zero e = (ground arith, tt)
tail_width-Pending b (c ∷ d ∷ []) (suc k) e = (ground arith, (ground arith, Pending-nil k))
tail_width-Pending b (c ∷ d ∷ f ∷ r) zero e = (ground arith, tt)
tail_width-Pending b (c ∷ d ∷ f ∷ r) (suc zero) e = (ground arith, (ground arith, tt))
tail_width-Pending b (c ∷ d ∷ f ∷ r) (suc (suc zero)) e =
    (ground arith, (ground arith, (ground arith, tt)))
tail_width-Pending b (c ∷ d ∷ f ∷ r) (suc (suc (suc k))) e = absurd (ground arith)

uncontrolled : (b : ℕ) → is_control b ≡ false → IsHarmless b
uncontrolled b e = ground arith

harmless : (b : ℕ) → 128 ≤ b → IsHarmless b
harmless b h = ground arith

sanitize_from-IsHarmless :
    (k : ℕ) (text : List ℕ) → Pending k text → All IsHarmless (sanitize k text)
unfolding sanitize
sanitize_from-IsHarmless zero [] h = tt
sanitize_from-IsHarmless (suc k) [] h = tt
sanitize_from-IsHarmless (suc k) (b ∷ rest) (h, p) =
    (harmless b h, sanitize_from-IsHarmless k rest p)
sanitize_from-IsHarmless zero (b ∷ rest) h =
    branch (ltb b 128) refl (sanitize_from-IsHarmless zero rest tt)
      (λ k p. sanitize_from-IsHarmless k rest p)
  where
    kept :
        (c : Bool)
        → is_control b ≡ c
        → All IsHarmless (sanitize zero rest)
        → All IsHarmless (if c then sanitize zero rest else b ∷ sanitize zero rest)
    kept true e more = more
    kept false e more = (uncontrolled b e, more)

    wide :
        (n : ℕ)
        → tail_width (b ∷ rest) ≡ n
        → 128 ≤ b
        → All IsHarmless (sanitize zero rest)
        → ((k : ℕ) → Pending k rest → All IsHarmless (sanitize k rest))
        → All IsHarmless (elim n as (λ _. List ℕ) [
          | zero ↦ 239 ∷ 191 ∷ 189 ∷ sanitize zero rest
          | suc k ↦ b ∷ sanitize (suc k) rest
        ])
    wide zero e high more rec = (omega arith, (omega arith, (omega arith, more)))
    wide (suc k) e high more rec = (harmless b high, rec (suc k) (tail_width-Pending b rest k e))

    branch :
        (c : Bool)
        → ltb b 128 ≡ c
        → All IsHarmless (sanitize zero rest)
        → ((k : ℕ) → Pending k rest → All IsHarmless (sanitize k rest))
        → All IsHarmless (elim c as (λ _. List ℕ) [
          | true ↦ if is_control b then sanitize zero rest else b ∷ sanitize zero rest
          | false ↦ elim (tail_width (b ∷ rest)) as (λ _. List ℕ) [
            | zero ↦ 239 ∷ 191 ∷ 189 ∷ sanitize zero rest
            | suc k ↦ b ∷ sanitize (suc k) rest
          ]
        ])
    branch true e more rec = kept (is_control b) refl more
    branch false e more rec = wide (tail_width (b ∷ rest)) refl (ground arith) more rec

abbrev pub IsAscii : ℕ → Type 0
IsAscii b = (b < 128) × IsHarmless b

sanitize-ascii : (b : ℕ) (rest : List ℕ) → IsAscii b → sanitize 0 (b ∷ rest) ≡ b ∷ sanitize 0 rest
unfolding sanitize
sanitize-ascii b rest h =
    let low : ltb b 128 ≡ true = ground arith in
    let fine : is_control b ≡ false = ground arith in rw (sanitize, low, fine) refl

sanitize-kept :
    (kept text : List ℕ) → All IsAscii kept → sanitize 0 (kept ++ text) ≡ kept ++ sanitize 0 text
unfolding sanitize
sanitize-kept [] text h = refl
sanitize-kept (b ∷ kept) text (h, hs) =
    sanitize-ascii b (kept ++ text) h ∙ ap (λ t. b ∷ t) (sanitize-kept kept text hs)

-- Whatever the text is, what `sanitize` returns holds no control character of ASCII but for tabs
-- and line feeds, and so no ESC; and the ASCII bytes that are no control characters, at the
-- beginning of the text, are kept as they are.
pub sanitize-IsHarmless :
    (kept text : List ℕ)
    → All IsAscii kept
    → All IsHarmless (sanitize 0 text) × (sanitize 0 (kept ++ text) ≡ kept ++ sanitize 0 text)
sanitize-IsHarmless kept text h = (sanitize_from-IsHarmless 0 text tt, sanitize-kept kept text h)
