-- ===== src/ServerId.antt =====
-- internal/serverid: the files of a server directory.
pub mod Flavor
pub mod Launch
pub mod Properties
mod Tests
