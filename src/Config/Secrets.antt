-- ===== src/Config/Secrets.antt =====
-- The secrets of a configuration that is loaded.
use Prim.Native.String.{len}
use arena.Common.{
  ℕ, ◌≤◌, ltb, ℤ, String, str_eq, str_eq_iff, false, ◌≡◌, refl, sym, subst, inl, inr, Option,
  if◌then◌else◌, Bool-cases, arith,
}
use arena.Sandbox.Boxrun.{Env}
use arena.Config.{Config, read_config, with_secrets, check_secrets, load}

checked_secrets :
    (r c : Config)
    → check_secrets r ≡ inr c
    → (c ≡ with_secrets r)
      × ((if str_eq r.env "prod" then 32 else 0) ≤ len r.jwt_secret)
      × ((if str_eq r.env "prod" then 16 else 0) ≤ len r.runner_token)
unfolding check_secrets
checked_secrets r c e = elim (Bool-cases (str_eq r.env "prod")) [
  | inr p ↦ rw p (ground arith, omega arith, omega arith)
  | inl p ↦ elim (Bool-cases (ltb (len r.jwt_secret) 32)) [
    | inl s ↦ absurd (ground arith)
    | inr s ↦ elim (Bool-cases (ltb (len r.runner_token) 16)) [
      | inl t ↦ absurd (ground arith)
      | inr t ↦ rw p (ground arith, ground arith, ground arith)
    ]
  ]
]

-- A secret, or its default.
abbrev or_default : String → String → String
or_default s d = if str_eq s "" then d else s

or_default-kept :
    (s d : String) (n : ℕ)
    → str_eq d "" ≡ false
    → n ≤ len s
    → (str_eq (or_default s d) "" ≡ false) × (n ≤ len (or_default s d))
or_default-kept s d n e l = elim (Bool-cases (str_eq s "")) [
  | inr f ↦ rw f (f, l)
  | inl f ↦
      let none_needed : n ≤ 0 = subst (λ t. n ≤ len t) ((str_eq_iff s "").0 f) l in
      rw f (e, omega arith)
]

abbrev Safe : Config → Type 0
Safe c =
    (str_eq c.jwt_secret "" ≡ false)
    × (str_eq c.runner_token "" ≡ false)
    × ((if str_eq c.env "prod" then 32 else 0) ≤ len c.jwt_secret)
    × ((if str_eq c.env "prod" then 16 else 0) ≤ len c.runner_token)

-- A configuration that `Load` returns has a JWT secret and a runner token, neither of them empty,
-- and in production they have at least 32 and 16 bytes.
pub load-secrets :
    (parse_duration : String → Option ℤ) (env : Env) (c : Config)
    → load parse_duration env ≡ inr c
    → (str_eq c.jwt_secret "" ≡ false)
      × (str_eq c.runner_token "" ≡ false)
      × ((if str_eq c.env "prod" then 32 else 0) ≤ len c.jwt_secret)
      × ((if str_eq c.env "prod" then 16 else 0) ≤ len c.runner_token)
unfolding load with_secrets
load-secrets parse_duration env c e =
    let r = read_config parse_duration env in
    let (same, jwt, token) = checked_secrets r c e in
    let (a, b) = or_default-kept r.jwt_secret _ _ refl jwt in
    let (x, y) = or_default-kept r.runner_token _ _ refl token in subst Safe (sym same) (a, x, b, y)
