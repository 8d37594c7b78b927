-- ===== src/Commands.antt =====
-- src/commands/: what the command line runs.
pub mod Watch
