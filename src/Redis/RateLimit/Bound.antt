-- ===== src/Redis/RateLimit/Bound.antt =====
-- How many requests the token bucket lets through.
use arena.Common.{
  ℕ, suc, ◌+◌, ◌-◌, ◌*◌, ◌≤◌, ◌<◌, ℤ, pos, Bool, true, ◌≡◌, Option, none, some, List, [], ◌∷◌,
  if◌then◌else◌, arith, ap, subst, sym, ◌∙◌,
}
use arena.Redis.RateLimit.{
  Bucket, token, refilled, token_bucket, at_least_one, allow, count_allowed,
}

-- The requests come in the order of time, behind a time and up to another.
abbrev pub Ordered : ℕ → ℕ → List ℕ → Type 0
Ordered start stop [] = start ≤ stop
Ordered start stop (now ∷ times) = (start ≤ now) × Ordered now stop times

time_split : (rate a b c : ℕ) → a ≤ b → b ≤ c → (b - a) * rate + (c - b) * rate ≡ (c - a) * rate
time_split rate a b c h k = grind arith

Ordered-le : (start stop : ℕ) (times : List ℕ) → Ordered start stop times → start ≤ stop
Ordered-le start stop [] h = h
Ordered-le start stop (now ∷ times) (h, k) = omega (arith, h, Ordered-le now stop times k)

-- What one request costs, and the time it leaves in the bucket.
abbrev spent : Bool → ℕ
spent allowed = if allowed then token else 0

token_bucket-spent :
    (rate burst now : ℕ) (o : Option Bucket)
    → let t = token_bucket rate burst now 1 o in
      (spent t.allowed + t.bucket.tokens ≤ refilled rate burst now o) × (t.bucket.ts ≡ now)
unfolding token_bucket
token_bucket-spent rate burst now o = (ground arith, ground arith)

allow-token_bucket :
    (rate : ℕ) (burst : ℤ) (now : ℕ) (o : Option Bucket)
    → 0 < rate
    → let t = token_bucket rate (at_least_one burst) now 1 o in
      allow true (pos rate) burst now o ≡ (t.allowed, t.retry_ms, some t.bucket)
unfolding allow
allow-token_bucket rate burst now o r = ground arith

count_allowed-next :
    (rate : ℕ) (burst : ℤ) (now : ℕ) (times : List ℕ) (o : Option Bucket)
    → 0 < rate
    → let t = token_bucket rate (at_least_one burst) now 1 o in
      count_allowed rate burst o (now ∷ times) * token
      ≡ spent t.allowed + count_allowed rate burst (some t.bucket) times * token
unfolding count_allowed
count_allowed-next rate burst now times o r =
    ap
      (λ a.
        (if a.0
          then suc (count_allowed rate burst a.2 times)
          else count_allowed rate burst a.2 times)
        * token)
      (allow-token_bucket rate burst now o r)
    ∙ weigh (token_bucket rate (at_least_one burst) now 1 o).allowed _
  where
    weigh : (a : Bool) (n : ℕ) → (if a then suc n else n) * token ≡ spent a + n * token
    weigh a n = ground arith

refilled-le :
    (rate burst now : ℕ) (b : Bucket)
    → refilled rate burst now (some b) ≤ b.tokens + (now - b.ts) * rate
unfolding refilled
refilled-le rate burst now b = ground arith

add_up :
    (k rest t level b x y z : ℕ)
    → k + t ≤ level
    → level ≤ b + x
    → rest ≤ t + y
    → x + y ≡ z
    → k + rest ≤ b + z
add_up k rest t level b x y z h i j e = omega arith

count_allowed-stored :
    (rate : ℕ) (burst : ℤ) (stop : ℕ) (times : List ℕ) (b : Bucket)
    → 0 < rate
    → Ordered b.ts stop times
    → count_allowed rate burst (some b) times * token ≤ b.tokens + (stop - b.ts) * rate
unfolding count_allowed
count_allowed-stored rate burst stop [] b r h = omega arith
count_allowed-stored rate burst stop (now ∷ times) b r (h, k) =
    let t = token_bucket rate (at_least_one burst) now 1 (some b) in
    let (paid, stamp) = token_bucket-spent rate (at_least_one burst) now (some b) in
    subst (λ n. n ≤ b.tokens + (stop - b.ts) * rate)
      (sym (count_allowed-next rate burst now times (some b) r))
      (add_up (spent t.allowed) _ t.bucket.tokens (refilled rate (at_least_one burst) now (some b))
        b.tokens ((now - b.ts) * rate) ((stop - now) * rate) ((stop - b.ts) * rate) paid
        (refilled-le rate (at_least_one burst) now b)
        (subst
          (λ s.
            count_allowed rate burst (some t.bucket) times * token
            ≤ t.bucket.tokens + (stop - s) * rate)
          stamp
          (count_allowed-stored rate burst stop times t.bucket r
            (subst (λ s. Ordered s stop times) (sym stamp) k)))
        (time_split rate b.ts now stop h (Ordered-le now stop times k)))

-- Of all requests of one key between its first one and a time, the limiter lets through at most the
-- burst and what the rate brings in between: where Redis answers each of them (one that it does not
-- answer is let through), in exact arithmetic, for a positive rate, a clock that does not go back,
-- and a key that has no bucket yet. (60,000 is the worth of a token; a burst below 1 counts as 1.)
pub count_allowed-bound :
    (rate : ℕ) (burst : ℤ) (first stop : ℕ) (times : List ℕ)
    → 0 < rate
    → Ordered first stop times
    → count_allowed rate burst none (first ∷ times) * token
      ≤ at_least_one burst * token + (stop - first) * rate
count_allowed-bound rate burst first stop times r k =
    let t = token_bucket rate (at_least_one burst) first 1 none in
    let (paid, stamp) = token_bucket-spent rate (at_least_one burst) first none in
    subst (λ n. n ≤ at_least_one burst * token + (stop - first) * rate)
      (sym (count_allowed-next rate burst first times none r))
      (add_up (spent t.allowed) _ t.bucket.tokens (refilled rate (at_least_one burst) first none)
        (at_least_one burst * token) 0 ((stop - first) * rate) ((stop - first) * rate) paid
        (full rate (at_least_one burst) first)
        (subst
          (λ s.
            count_allowed rate burst (some t.bucket) times * token
            ≤ t.bucket.tokens + (stop - s) * rate)
          stamp
          (count_allowed-stored rate burst stop times t.bucket r
            (subst (λ s. Ordered s stop times) (sym stamp) k)))
        (omega arith))
  where
    full : (rate burst now : ℕ) → refilled rate burst now none ≤ burst * token + 0
    full rate burst now = unfold refilled in omega arith
