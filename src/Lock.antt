-- ===== src/Lock.antt =====
-- internal/lock: which instance drives a server directory.
pub mod Owner
pub mod Acquire
pub mod Heartbeat
mod Tests
