-- ===== src/Core.antt =====
-- internal/core: the domain types and the pure functions on them.
pub mod Verdict
pub mod Limits
pub mod Job
pub mod Classify
pub mod Aggregate
pub mod Scoring
mod Examples
