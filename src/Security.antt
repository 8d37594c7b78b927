-- ===== src/Security.antt =====
-- src/security/: what keeps a peer's paths inside the root.
pub mod Sanitizer
mod Runs
