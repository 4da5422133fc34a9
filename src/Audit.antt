-- ===== src/Audit.antt =====
-- internal/audit: the audit log.
pub mod Logger
pub mod List
pub mod Files
mod Tests
