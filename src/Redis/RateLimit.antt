-- ===== src/Redis/RateLimit.antt =====
-- internal/adapters/redisq/ratelimit.go: the token bucket. The script computes with doubles in
-- tokens and seconds; here the arithmetic is exact, in 60,000ths of a token, of which a rate of r
-- tokens a minute gives r each millisecond. A bucket expires only once it is full again.
pub mod Bound
use arena.Common.{
  ℕ, suc, ◌+◌, ◌-◌, ◌*◌, ◌/◌, min, ℤ, pos, negsuc, leb, leb_ℤ, Bool, ◌||◌, not, true, false, Option,
  none, some, List, [], ◌∷◌, if◌then◌else◌,
}

-- The hash of one key.
pub record Bucket : Type 0 where
  pub tokens : ℕ
  pub ts : ℕ

abbrev pub token : ℕ
token = 60_000

-- The tokens at a time. A clock that goes back adds none.
unfoldable pub refilled : ℕ → ℕ → ℕ → Option Bucket → ℕ
refilled rate burst now none = burst * token
refilled rate burst now (some b) = min (burst * token) (b.tokens + (now - b.ts) * rate)

-- What the script returns, and the hash that it stores.
pub record Taken : Type 0 where
  pub allowed : Bool
  pub retry_ms : ℕ
  pub bucket : Bucket

unfoldable pub token_bucket : ℕ → ℕ → ℕ → ℕ → Option Bucket → Taken
unfolding refilled
token_bucket rate burst now cost o =
    let tokens = refilled rate burst now o in
    if leb (cost * token) tokens
    then record {
      allowed = true;
      retry_ms = 0;
      bucket = record { tokens = tokens - cost * token; ts = now };
    }
    else record {
      allowed = false;
      retry_ms = (cost * token - tokens + (rate - 1)) / rate;
      bucket = record { tokens = tokens; ts = now };
    }

-- The burst that `Allow` passes on: at least 1.
abbrev pub at_least_one : ℤ → ℕ
at_least_one (pos n) = if leb n 0 then 1 else n
at_least_one (negsuc n) = 1

-- `Allow`, on a Redis that answers or not: the answer and the bucket of the key. A request that
-- Redis does not answer is let through.
unfoldable pub allow : Bool → ℤ → ℤ → ℕ → Option Bucket → Bool × ℕ × Option Bucket
unfolding token_bucket
allow answers (negsuc n) burst now o = (true, 0, o)
allow answers (pos rate) burst now o =
    if leb rate 0 || not answers
    then (true, 0, o)
    else let t = token_bucket rate (at_least_one burst) now 1 o in
      (t.allowed, t.retry_ms, some t.bucket)

-- How many of the requests at some times are let through, where Redis answers each.
unfoldable pub count_allowed : ℕ → ℤ → Option Bucket → List ℕ → ℕ
unfolding allow
count_allowed rate burst o [] = 0
count_allowed rate burst o (now ∷ times) =
    let (ok, retry, o') = allow true (pos rate) burst now o in
    let rest = count_allowed rate burst o' times in if ok then suc rest else rest
