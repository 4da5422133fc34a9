-- ===== src/Discovery.antt =====
-- internal/discovery: the catalog of servers below the roots.
pub mod Scan
pub mod Store
mod Tests
