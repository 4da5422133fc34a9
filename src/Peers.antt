-- ===== src/Peers.antt =====
-- internal/peers: the other instances.
pub mod Pool
mod Tests
