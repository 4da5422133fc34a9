-- ===== src/Slp.antt =====
-- internal/slp: the Server List Ping client.
pub mod VarInt
pub mod Reply
mod Tests
