-- ===== src/Rcon.antt =====
-- internal/rcon: the client of a server's remote console.
pub mod Packet
pub mod Client
mod Tests
