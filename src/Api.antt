-- ===== src/Api.antt =====
-- internal/api: the handlers that create submissions and take verdicts, and the reconciler.
pub mod World
pub mod Result
pub mod Auth
pub mod Pages
pub mod Reconciler
pub mod Submit
pub mod Examples
mod SubmitExamples
