-- ===== src/Process.antt =====
-- internal/process: the supervisor's capture of the server's output.
pub mod RingBuffer
pub mod Exit
mod Tests
