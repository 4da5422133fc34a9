-- ===== src/Slot.antt =====
-- internal/slot: one configured slot, its lifecycle, and the goroutines that drive it.
pub mod State
pub mod Record
pub mod Memory
pub mod Mount
pub mod Stop
pub mod Watch
pub mod Run
pub mod Gameplay
pub mod Players
pub mod Manager
pub mod Tests
