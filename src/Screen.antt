-- ===== src/Screen.antt =====
-- The screen thread: entries/thread_screen.
pub mod Choose
pub mod Turns
pub mod Queues
mod Tests
