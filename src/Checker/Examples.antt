-- ===== src/Checker/Examples.antt =====
-- Tests of internal/checker, and its theorems at concrete inputs.
use Prim.Native.Char.{code}
use arena.Common.{
  ℤ, pos, ◌-ℤ◌, ◌-◌, ◌+◌, pos_part, neg_part, leb_ℤ, ltb_ℤ, leb, true, ◌&&◌, Option, none,
  if◌then◌else◌, ℕ, zero, suc, ◌≡◌, ◌↔◌, refl, inl, inr, String, some, List, [], ◌∷◌, ◌++◌, length,
  All, arith,
}
use arena.Checker.Scanner.{max_token, space_width, next}
use arena.Checker.Words.Layout.{IsPlain, Piece, IsLaidOut, spread, words}
use arena.Checker.Compare.{Outcome, accept, refuse, differs, out_of_tolerance, step}
use arena.Checker.Token.{check_token, token_pair}
use arena.Checker.Token.Format.{check_token-accept, check_token-oversized}
use arena.Checker.Float.{Float64, check_float, float_pair}
use arena.Checker.Float.Tolerance.{Matches, check_float-accept}
use arena.Checker.Compare.Lockstep.{AllAgree}
use arena.Checker.Exact.{check_exact}
use arena.Checker.Exact.Trailing.{IsTrimmed, check_exact-accept}

abbrev bytes : String → List ℕ
bytes String.[] = []
bytes (String.◌∷◌ c s) = code c ∷ bytes s

-- "12 3" and a line end; "12", a carriage return and a line end, "3".
abbrev unix : List Piece
unix = (49 ∷ 50 ∷ [], 32 ∷ []) ∷ (51 ∷ [], 10 ∷ []) ∷ []

abbrev windows : List Piece
windows = (49 ∷ 50 ∷ [], 13 ∷ 10 ∷ []) ∷ (51 ∷ [], []) ∷ []

unix-IsLaidOut : IsLaidOut unix
unix-IsLaidOut = (
  omega arith,
  omega arith,
  (omega arith, (omega arith, tt)),
  (omega arith, tt),
  inl (omega arith),
  (omega arith, omega arith, (omega arith, tt), (omega arith, tt), inl (omega arith), tt),
)

windows-IsLaidOut : IsLaidOut windows
windows-IsLaidOut = (
  omega arith,
  omega arith,
  (omega arith, (omega arith, tt)),
  (omega arith, (omega arith, tt)),
  inl (omega arith),
  (omega arith, omega arith, (omega arith, tt), tt, inr refl, tt),
)

check_token-accept_example :
    (o : Outcome) × (check_token (some (32 ∷ [] ++ spread unix)) (some ([] ++ spread windows))
      ≡ some o)
    × ((o ≡ accept) ↔ (words unix ≡ words windows))
check_token-accept_example =
    check_token-accept (32 ∷ []) [] unix windows (omega arith, tt) tt unix-IsLaidOut
      windows-IsLaidOut

wrong_token :
    check_token (some (bytes "1 2 3")) (some (bytes "1 2 4"))
    ≡ some (refuse (differs 3 (bytes "3") (bytes "4")))
unfolding check_token step next token_pair
wrong_token = refl

repeat_byte : ℕ → ℕ → List ℕ
repeat_byte b zero = []
repeat_byte b (suc n) = b ∷ repeat_byte b n

repeat_byte-length : (b n : ℕ) → length (repeat_byte b n) ≡ n
unfolding repeat_byte
repeat_byte-length b zero = refl
repeat_byte-length b (suc n) = omega (arith, repeat_byte-length b n)

repeat_byte-IsPlain : (b n : ℕ) → IsPlain b → All IsPlain (repeat_byte b n)
unfolding repeat_byte
repeat_byte-IsPlain b zero h = tt
repeat_byte-IsPlain b (suc n) h = (h, repeat_byte-IsPlain b n h)

check_token-oversized_example :
    check_token
      (some ([] ++ (repeat_byte 97 max_token ++ 10 ∷ 49 ∷ [])))
      (some ([] ++ (repeat_byte 98 max_token ++ [])))
    ≡ some accept
check_token-oversized_example =
    check_token-oversized [] [] (repeat_byte 97 max_token) (repeat_byte 98 max_token) (10 ∷ 49 ∷ [])
      [] tt tt (repeat_byte-IsPlain 97 max_token (omega arith))
      (repeat_byte-IsPlain 98 max_token (omega arith))
      (omega (arith, repeat_byte-length 97 max_token))
      (omega (arith, repeat_byte-length 98 max_token))

one_letter : IsTrimmed (97 ∷ [])
one_letter = inr ([], 97, refl, omega arith, omega arith)

abbrev letter : List ℕ
letter = 97 ∷ []

check_exact-accept_example :
    (check_exact (some (letter ++ 13 ∷ 10 ∷ 10 ∷ [])) (some (letter ++ [])) ≡ accept)
    ↔ (letter ≡ letter)
check_exact-accept_example =
    check_exact-accept letter letter (13 ∷ 10 ∷ 10 ∷ []) [] one_letter one_letter
      (omega arith, (omega arith, (omega arith, tt))) tt

-- Digits for numbers, and a tolerance of one.
abbrev digit : List ℕ → Option ℤ
digit [] = none
digit (b ∷ []) = if leb 48 b && leb b 57 then some (pos (b - 48)) else none
digit (b ∷ c ∷ rest) = none

abbrev digits : Float64
digits = record {
  Float = ℤ;
  parse = digit;
  is_finite = λ x. true;
  zero = pos 0;
  default_epsilon = pos 1;
  tiny = pos 1;
  sub = λ x y. x -ℤ y;
  div = λ x y. x;
  abs = λ x. pos (pos_part x + neg_part x);
  max = λ x y. if leb_ℤ x y then y else x;
  gt = λ x y. ltb_ℤ y x;
  le = leb_ℤ;
}

check_float-accept_example :
    (o : Outcome) × (check_float digits
        (pos 0)
        (some ([] ++ spread unix))
        (some ([] ++ spread windows))
      ≡ some o)
    × ((o ≡ accept) ↔ AllAgree (Matches digits (pos 1)) (words unix) (words windows))
check_float-accept_example =
    check_float-accept digits (pos 0) [] [] unix windows tt tt unix-IsLaidOut windows-IsLaidOut

close_number :
    check_float digits (pos 0) (some (bytes "yes 3")) (some (bytes "yes 4")) ≡ some accept
unfolding check_float step next float_pair ◌-ℤ◌ space_width
close_number = refl

far_number :
    check_float digits (pos 0) (some (bytes "yes 3")) (some (bytes "yes 5"))
    ≡ some (refuse (out_of_tolerance 2))
unfolding check_float step next float_pair ◌-ℤ◌ space_width
far_number = refl
