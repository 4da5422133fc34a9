-- ===== src/Api.antt =====
-- internal/api: what the handlers decide before they call the components.
pub mod Auth
pub mod Commands
pub mod Federation
pub mod Properties
pub mod Router
pub mod Updates
pub mod Backups
mod Tests
