-- ===== src/Sync.antt =====
-- src/sync: the entries of a scan, and the planner over two scans.
pub mod Entry
pub mod Planner
pub mod Sender
pub mod Serve
pub mod Strategy
pub mod Pairing
pub mod Wire
pub mod Linkpolicy
