-- ===== src/Redis.antt =====
-- internal/adapters/redisq: the leaderboard and the rate limiter.
pub mod Leaderboard
pub mod RateLimit
mod Examples
