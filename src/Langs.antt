-- ===== src/Langs.antt =====
-- internal/langs: language manifests and their registry.
pub mod Manifest
pub mod Registry
pub mod Examples
