-- ===== src/Target.antt =====
-- src/target/: the sides of a synchronization.
pub mod Address
