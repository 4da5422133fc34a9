-- ===== src/Gameplay.antt =====
-- internal/gameplay: what a log line's message says of the game.
pub mod Lines
pub mod Toxicity
pub mod Tests
