-- ===== src/Sandbox/Numbers.antt =====
-- Decimal numbers in texts, as `strconv.FormatInt` writes and `strconv.ParseInt` reads them in base
-- 10 and 64 bits.
use Prim.Native.Char.{Char, char, code}
use arena.Common.{
  ℕ, zero, suc, ◌+◌, ◌-◌, ◌*◌, ◌/◌, ◌%◌, ◌^◌, ◌<◌, ℤ, pos, negsuc, ltb, leb, String, Bool, true,
  false, ◌&&◌, ◌≡◌, refl, ap, sym, ◌∙◌, Option, none, some, ◌==◌, IsInt64, Bool-cases, inl, inr,
  if◌then◌else◌, arith,
}

abbrev digit : ℕ → Char
digit d =
    if d == 0
    then char 48 tt
    else if d == 1
    then char 49 tt
    else if d == 2
    then char 50 tt
    else if d == 3
    then char 51 tt
    else if d == 4
    then char 52 tt
    else if d == 5
    then char 53 tt
    else if d == 6
    then char 54 tt
    else if d == 7
    then char 55 tt
    else if d == 8
    then char 56 tt
    else char 57 tt

-- The digits of a number, in front of a text. The fuel is at least the number of the digits.
unfoldable pub format_digits : ℕ → ℕ → String → String
format_digits zero n rest = rest
format_digits (suc fuel) n rest =
    let more = format_digits fuel (n / 10) (String.◌∷◌ (digit (n % 10)) rest) in
    if ltb n 10 then String.◌∷◌ (digit n) rest else more

unfoldable pub format_int : ℤ → String
unfolding format_digits
format_int (pos n) = format_digits 20 n ""
format_int (negsuc n) = String.◌∷◌ (char 45 tt) (format_digits 20 (suc n) "")

unfoldable pub parse_digits : ℕ → String → Option ℕ
parse_digits acc String.[] = some acc
parse_digits acc (String.◌∷◌ c s) =
    let more = parse_digits (acc * 10 + (code c - 48)) s in
    if leb 48 (code c) && leb (code c) 57 then more else none

-- At least one digit.
abbrev pub parse_uint : String → Option ℕ
parse_uint String.[] = none
parse_uint (String.◌∷◌ c s) = parse_digits 0 (String.◌∷◌ c s)

abbrev pub in_range : ℤ → Option ℤ
in_range (pos n) = if ltb n (2 ^ 63) then some (pos n) else none
in_range (negsuc n) = if ltb n (2 ^ 63) then some (negsuc n) else none

abbrev pub negated : ℕ → ℤ
negated zero = pos 0
negated (suc n) = negsuc n

abbrev pub signed : Bool → Option ℕ → Option ℤ
signed minus none = none
signed true (some n) = in_range (negated n)
signed false (some n) = in_range (pos n)

unfoldable pub parse_int : String → Option ℤ
unfolding parse_digits
parse_int String.[] = none
parse_int (String.◌∷◌ c s) =
    if code c == 45
    then signed true (parse_uint s)
    else if code c == 43
    then signed false (parse_uint s)
    else signed false (parse_uint (String.◌∷◌ c s))

code-digit : (d : ℕ) → d < 10 → code (digit d) ≡ 48 + d
code-digit zero h = refl
code-digit (suc zero) h = refl
code-digit (suc (suc zero)) h = refl
code-digit (suc (suc (suc zero))) h = refl
code-digit (suc (suc (suc (suc zero)))) h = refl
code-digit (suc (suc (suc (suc (suc zero))))) h = refl
code-digit (suc (suc (suc (suc (suc (suc zero)))))) h = refl
code-digit (suc (suc (suc (suc (suc (suc (suc zero))))))) h = refl
code-digit (suc (suc (suc (suc (suc (suc (suc (suc zero)))))))) h = refl
code-digit (suc (suc (suc (suc (suc (suc (suc (suc (suc zero))))))))) h = refl
code-digit (suc (suc (suc (suc (suc (suc (suc (suc (suc (suc d)))))))))) h = absurd (omega arith)

parse_digit :
    (acc d : ℕ) (rest : String)
    → d < 10
    → parse_digits acc (String.◌∷◌ (digit d) rest) ≡ parse_digits (acc * 10 + d) rest
unfolding parse_digits
parse_digit acc d rest h =
    let same : acc * 10 + (48 + d - 48) ≡ acc * 10 + d = omega arith in
    rw (code-digit d h, same) (ground arith)

-- 10 to a power.
abbrev ten_to : ℕ → ℕ
ten_to zero = 1
ten_to (suc k) = 10 * ten_to k

parse-format_digits :
    (fuel n : ℕ) (rest : String)
    → n < ten_to fuel
    → parse_digits 0 (format_digits fuel n rest) ≡ parse_digits n rest
unfolding format_digits
parse-format_digits zero n rest h = let none_left : n ≡ 0 = omega arith in rw none_left refl
parse-format_digits (suc fuel) n rest h = elim (Bool-cases (ltb n 10)) [
  | inl e ↦ rw e (parse_digit 0 n rest (ground arith) ∙ ap (λ k. parse_digits k rest) (omega arith))
  | inr e ↦ rw e (
      parse-format_digits fuel (n / 10) (String.◌∷◌ (digit (n % 10)) rest) (omega arith)
      ∙ parse_digit (n / 10) (n % 10) rest (omega arith)
      ∙ ap (λ k. parse_digits k rest) (omega arith))
]

-- What is written starts with a digit.
abbrev StartsWithDigit : String → Type 0
StartsWithDigit t = (d : ℕ) × (s : String) × (d < 10) × (t ≡ String.◌∷◌ (digit d) s)

format_digits-StartsWithDigit :
    (fuel n : ℕ) (rest : String) → StartsWithDigit (format_digits (suc fuel) n rest)
unfolding format_digits
format_digits-StartsWithDigit zero n rest = elim (Bool-cases (ltb n 10)) [
  | inl e ↦ (n, rest, ground arith, rw e refl)
  | inr e ↦ (n % 10, rest, omega arith, rw e refl)
]
format_digits-StartsWithDigit (suc fuel) n rest = elim (Bool-cases (ltb n 10)) [
  | inl e ↦ (n, rest, ground arith, rw e refl)
  | inr e ↦
      let (d, s, l, f) =
        format_digits-StartsWithDigit fuel (n / 10) (String.◌∷◌ (digit (n % 10)) rest) in
      (d, s, l, rw e f)
]

parse_int-digit :
    (d : ℕ) (s : String)
    → d < 10
    → parse_int (String.◌∷◌ (digit d) s) ≡ signed false (parse_digits 0 (String.◌∷◌ (digit d) s))
unfolding parse_int
parse_int-digit d s h = ground (arith, code-digit d h)

parse_digits-format : (n : ℕ) → n < 2 ^ 64 → parse_digits 0 (format_digits 20 n "") ≡ some n
parse_digits-format n h = parse-format_digits 20 n "" (omega arith) ∙ (unfold parse_digits in refl)

parse_uint-format : (n : ℕ) → n < 2 ^ 64 → parse_uint (format_digits 20 n "") ≡ some n
parse_uint-format n h =
    let (d, s, l, e) = format_digits-StartsWithDigit 19 n "" in
    ap parse_uint e ∙ ap (parse_digits 0) (sym e) ∙ parse_digits-format n h

parse_int-minus : (t : String) → parse_int (String.◌∷◌ (char 45 tt) t) ≡ signed true (parse_uint t)
unfolding parse_int
parse_int-minus t = refl

-- What `FormatInt` writes `ParseInt` reads back.
pub parse_int-format_int : (z : ℤ) → IsInt64 z → parse_int (format_int z) ≡ some z
unfolding format_int
parse_int-format_int (pos n) h =
    let (d, s, l, e) = format_digits-StartsWithDigit 19 n "" in
    ap parse_int e
    ∙ parse_int-digit d s l
    ∙ ap (λ t. signed false (parse_digits 0 t)) (sym e)
    ∙ ap (signed false) (parse_digits-format n (omega arith))
    ∙ ground arith
parse_int-format_int (negsuc n) h =
    parse_int-minus (format_digits 20 (suc n) "")
    ∙ ap (signed true) (parse_uint-format (suc n) (omega arith))
    ∙ ground arith
