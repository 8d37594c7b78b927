-- ===== src/Transport.antt =====
-- src/transport/: how a remote side is reached.
pub mod Ssh
