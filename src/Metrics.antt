-- ===== src/Metrics.antt =====
-- internal/metrics: the exposition of metrics.
pub mod Registry
mod Tests
