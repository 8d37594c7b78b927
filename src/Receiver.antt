-- ===== src/Receiver.antt =====
-- src/sync/receiver.rs: the receiving side of a session.
pub mod Sparse
pub mod State
pub mod Chunks
pub mod Applies
pub mod Loop
mod Runs
