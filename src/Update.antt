-- ===== src/Update.antt =====
-- internal/update: new builds of the server's jar.
pub mod Paper
