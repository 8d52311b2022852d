-- ===== src/Protocol.antt =====
-- server/internal/protocol: the wire formats of the tunnel.
pub mod Frame
pub mod Batch
pub mod Compression
pub mod Awg
pub mod Shaping
pub mod Generator
