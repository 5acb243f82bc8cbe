-- ===== src/Judge.antt =====
-- internal/judge: one job, from its source to its result.
pub mod Box
pub mod Sanitize
pub mod Test
pub mod Run
pub mod Examples
