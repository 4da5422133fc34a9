-- ===== src/Logtail.antt =====
-- internal/logtail: following a log file.
pub mod Broadcaster
pub mod Parser
pub mod Tailer
mod Tests
