-- ===== src/Delta.antt =====
-- src/delta: the two delta engines, their signatures, and the patch that undoes them.
pub mod Rollsum
pub mod Error
pub mod Ops
pub mod Signature
pub mod Reader
pub mod Table
pub mod Scan
pub mod Compute
pub mod Patch
mod Runs
