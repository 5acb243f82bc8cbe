-- ===== src/Sandbox.antt =====
-- The sandbox: cmd/boxrun/main.go inside the container, and internal/adapters/sandbox outside.
pub mod Numbers
pub mod Boxrun
pub mod Meta
pub mod Docker
pub mod Envelope
pub mod Verdicts
pub mod Examples
