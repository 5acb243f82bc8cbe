-- ===== src/Api/Auth/Compare.antt =====
-- The comparison of tokens in constant time.
use arena.Common.{
  ℕ, zero, suc, ◌*◌, ◌/◌, ◌<◌, true, ◌≡◌, ◌↔◌, refl, ap, List, [], ◌∷◌, length, All, arith,
}
use arena.Api.Auth.{bit_xor, bit_or, differing, subtle_compare}

-- 2 to a power.
abbrev two_to : ℕ → ℕ
two_to zero = 1
two_to (suc k) = 2 * two_to k

bit_xor-zero : (bits a b : ℕ) → a < two_to bits → b < two_to bits → (bit_xor bits a b ≡ 0) ↔ (a ≡ b)
unfolding bit_xor
bit_xor-zero zero a b h k = ground arith
bit_xor-zero (suc bits) a b h k = ground (arith, bit_xor-zero bits (a / 2) (b / 2))

bit_or-zero :
    (bits a b : ℕ) → a < two_to bits → b < two_to bits → (bit_or bits a b ≡ 0) ↔ ((a ≡ 0) × (b ≡ 0))
unfolding bit_or
bit_or-zero zero a b h k = ground arith
bit_or-zero (suc bits) a b h k = ground (arith, bit_or-zero bits (a / 2) (b / 2))

bit_xor-lt : (bits a b : ℕ) → bit_xor bits a b < two_to bits
unfolding bit_xor
bit_xor-lt zero a b = omega arith
bit_xor-lt (suc bits) a b = omega (arith, bit_xor-lt bits (a / 2) (b / 2))

bit_or-lt : (bits a b : ℕ) → bit_or bits a b < two_to bits
unfolding bit_or
bit_or-lt zero a b = omega arith
bit_or-lt (suc bits) a b = ground (arith, bit_or-lt bits (a / 2) (b / 2))

abbrev pub IsBytes : List ℕ → Type 0
IsBytes = All (λ x. x < 256)

differing-zero :
    (a b : List ℕ) (v : ℕ)
    → length a ≡ length b
    → v < 256
    → IsBytes a
    → IsBytes b
    → (differing v a b ≡ 0) ↔ ((v ≡ 0) × (a ≡ b))
unfolding differing
differing-zero [] [] v e l h k = ground arith
differing-zero [] (y ∷ b) v e l h k = absurd (omega arith)
differing-zero (x ∷ a) [] v e l h k = absurd (omega arith)
differing-zero (x ∷ a) (y ∷ b) v e l (hx, h) (hy, k) =
    let next = bit_or 8 v (bit_xor 8 x y) in
    let same = bit_xor-zero 8 x y hx hy in
    let both = bit_or-zero 8 v (bit_xor 8 x y) l (bit_xor-lt 8 x y) in
    let rest = differing-zero a b next (omega arith) (bit_or-lt 8 v (bit_xor 8 x y)) h k in
    (
      λ z.
          let (none_set, same_rest) = rest.0 z in
          let (v_zero, xor_zero) = both.0 none_set in
          let head : x ≡ y = same.0 xor_zero in (v_zero, rw (head, same_rest) refl),
      λ z. rest.1 (both.1 (z.0, same.1 (ground arith)), ground arith),
    )

-- `subtleCompare` is equality, of texts of bytes.
pub subtle_compare_iff :
    (a b : List ℕ) → IsBytes a → IsBytes b → (subtle_compare a b ≡ true) ↔ (a ≡ b)
unfolding subtle_compare
subtle_compare_iff a b h k = (
  λ z.
      let long : length a ≡ length b = ground arith in
      ((differing-zero a b 0 long (omega arith) h k).0 (ground arith)).1,
  λ e.
      let long : length a ≡ length b = ap length e in
      let zero_diff : differing 0 a b ≡ 0 =
        (differing-zero a b 0 long (omega arith) h k).1 (refl, e) in
      ground arith,
)
