-- ===== src/Backup.antt =====
-- internal/backup: archives of a server's directory.
pub mod Paths
pub mod Names
pub mod Create
pub mod Restore
mod Tests
