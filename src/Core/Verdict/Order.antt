-- ===== src/Core/Verdict/Order.antt =====
-- `worst_of` as the maximum of an order on verdicts.
use arena.Common.{max, ◌≡◌, refl, ◌↔◌, true, arith}
use arena.Core.Verdict.{Verdict, ac, severity, is_accepted, worst_of}

zero_severity : (a : Verdict) → severity a ≡ 0 → a ≡ ac
unfolding severity
zero_severity a h = ground arith

severity-ac : severity ac ≡ 0
unfolding severity
severity-ac = refl

-- `worst_of` is the maximum by severity: associative, idempotent, with `ac` as its unit, and the
-- severity of the result is the greater of the two.
pub worst_of_semilattice :
    (a b c : Verdict)
    → (worst_of (worst_of a b) c ≡ worst_of a (worst_of b c))
      × (worst_of a a ≡ a)
      × (worst_of ac a ≡ a)
      × (worst_of a ac ≡ a)
      × (severity (worst_of a b) ≡ max (severity a) (severity b))
unfolding worst_of
worst_of_semilattice a b c = (
  ground arith,
  ground arith,
  ground (arith, severity-ac, zero_severity a),
  ground (arith, severity-ac, zero_severity a),
  ground arith,
)

-- A result of `worst_of` passes exactly when both verdicts pass; an unknown text never does.
pub worst_of-accepted :
    (a b : Verdict)
    → (is_accepted (worst_of a b) ≡ true) ↔ ((is_accepted a ≡ true) × (is_accepted b ≡ true))
unfolding worst_of severity is_accepted
worst_of-accepted a b = ground arith
