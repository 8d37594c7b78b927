-- ===== src/Protocol.antt =====
-- src/protocol: the frames on the wire.
pub mod Result
pub mod Stream
