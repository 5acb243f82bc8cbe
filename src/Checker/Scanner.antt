-- ===== src/Checker/Scanner.antt =====
-- `tokenScanner` of internal/checker/token.go: bufio.Scanner with ScanWords and a 16 MiB buffer.
-- A file is the list of its bytes. A scan that meets a token of 2^24 bytes or more fails, and
-- `next` reports a failed scan as it reports the end of the file. (The source also fails where a
-- word is one or two bytes shorter and the space behind it, of several bytes, passes the buffer.)
use arena.Common.{
  ℕ, zero, suc, ◌^◌, ◌==◌, leb, Bool, ◌&&◌, ◌||◌, Option, none, some, List, [], ◌∷◌, length,
  if◌then◌else◌, take, ◌++◌,
}

-- The spaces of one byte: tab, newline, vertical tab, form feed, carriage return, blank.
unfoldable pub is_ascii_space : ℕ → Bool
is_ascii_space b = b == 32 || (leb 9 b && leb b 13)

-- U+0085 and U+00A0 in UTF-8.
abbrev pub is_space2 : ℕ → ℕ → Bool
is_space2 b c = b == 0xC2 && (c == 0x85 || c == 0xA0)

-- U+1680, U+2000 to U+200A, U+2028, U+2029, U+202F, U+205F and U+3000 in UTF-8.
abbrev pub is_space3 : ℕ → ℕ → ℕ → Bool
is_space3 b c d =
    (b == 0xE1 && c == 0x9A && d == 0x80)
    || (b == 0xE2
        && c == 0x80
        && ((leb 0x80 d && leb d 0x8A) || d == 0xA8 || d == 0xA9 || d == 0xAF))
    || (b == 0xE2 && c == 0x81 && d == 0x9F)
    || (b == 0xE3 && c == 0x80 && d == 0x80)

-- The bytes of the space that a text begins with, 0 if it begins with none.
unfoldable pub space_width : List ℕ → ℕ
unfolding is_ascii_space
space_width [] = 0
space_width (b ∷ []) = if is_ascii_space b then 1 else 0
space_width (b ∷ c ∷ []) = if is_ascii_space b then 1 else if is_space2 b c then 2 else 0
space_width (b ∷ c ∷ d ∷ rest) =
    if is_ascii_space b then 1 else if is_space2 b c then 2 else if is_space3 b c d then 3 else 0

-- The text behind its leading spaces; `k` bytes of a space are still to be skipped.
unfoldable pub skip_spaces : ℕ → List ℕ → List ℕ
skip_spaces k [] = []
skip_spaces (suc k) (b ∷ rest) = skip_spaces k rest
skip_spaces zero (b ∷ rest) = elim (space_width (b ∷ rest)) [
  | zero ↦ b ∷ rest
  | suc k ↦ skip_spaces k rest
]

abbrev pub drop : ℕ → List ℕ → List ℕ
drop zero xs = xs
drop (suc k) [] = []
drop (suc k) (x ∷ xs) = drop k xs

-- The bytes up to the next space or the end, and what stands behind that space.
unfoldable pub take_word : List ℕ → List ℕ × List ℕ
take_word [] = ([], [])
take_word (b ∷ rest) =
    let (word, behind) = take_word rest in
    elim (space_width (b ∷ rest)) [ zero ↦ (b ∷ word, behind) | suc k ↦ ([], drop k rest) ]

abbrev pub max_token : ℕ
max_token = 2 ^ 24

-- `next` on the word that a scan has found.
abbrev pub deliver : List ℕ × List ℕ → Option (List ℕ × List ℕ)
deliver ([], rest) = none
deliver (b ∷ word, rest) = if leb max_token (length (b ∷ word)) then none else some (b ∷ word, rest)

unfoldable pub next : List ℕ → Option (List ℕ × List ℕ)
unfolding skip_spaces take_word space_width
next text = deliver (take_word (skip_spaces 0 text))

-- `trunc`: at most 40 bytes, and three dots if any are left out.
unfoldable pub trunc : List ℕ → List ℕ
trunc s = if leb (length s) 40 then s else take 40 s ++ (46 ∷ 46 ∷ 46 ∷ [])
