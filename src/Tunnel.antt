-- ===== src/Tunnel.antt =====
-- server/internal/tunnel: addresses, sessions and the tables that route packets to them.
pub mod Packet
pub mod Device
pub mod Pool
pub mod Session
pub mod Manager
pub mod Nat
