-- ===== src/Events.antt =====
-- internal/events: the event bus of a slot.
pub mod Bus
mod Tests
