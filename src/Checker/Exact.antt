-- ===== src/Checker/Exact.antt =====
-- `Exact` of internal/checker/token.go. A file that cannot be read is `none`.
pub mod Trailing
use mathlib.Core.List.{reverse}
use arena.Common.{
  ℕ, zero, suc, ◌==◌, Bool, ◌||◌, not, Option, none, some, List, [], ◌∷◌, length, if◌then◌else◌,
}
use arena.Checker.Compare.{
  no_output, length_mismatch, first_difference, Outcome, accept, refuse, failure,
}

abbrev pub is_line_end : ℕ → Bool
is_line_end b = b == 10 || b == 13

-- The loop of `trimTrailingNewline`, which takes bytes off the end: the text is given last byte
-- first.
unfoldable pub drop_line_ends : List ℕ → List ℕ
drop_line_ends [] = []
drop_line_ends (b ∷ rest) =
    let shorter = drop_line_ends rest in if is_line_end b then shorter else b ∷ rest

unfoldable pub trim_trailing_newline : List ℕ → List ℕ
unfolding drop_line_ends
trim_trailing_newline b = reverse (drop_line_ends (reverse b))

-- `for i := range et`, over two texts of one length.
unfoldable pub compare_bytes : ℕ → List ℕ → List ℕ → Outcome
compare_bytes i [] at = accept
compare_bytes i (e ∷ et) [] = accept
compare_bytes i (e ∷ et) (a ∷ at) =
    let rest = compare_bytes (suc i) et at in
    if not (e == a) then refuse (first_difference i) else rest

unfoldable pub check_exact : Option (List ℕ) → Option (List ℕ) → Outcome
unfolding trim_trailing_newline compare_bytes
check_exact none actual = failure
check_exact (some e) none = refuse no_output
check_exact (some e) (some a) =
    let et = trim_trailing_newline e in
    let at = trim_trailing_newline a in
    if not (length et == length at)
    then refuse (length_mismatch (length et) (length at))
    else compare_bytes 0 et at
