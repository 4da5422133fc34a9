-- ===== src/Config.antt =====
-- internal/config: the configuration of an instance.
pub mod Validate
mod Tests
