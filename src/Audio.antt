-- ===== src/Audio.antt =====
-- The audio stream: entries/thread_audio.rs.
pub mod Ring
pub mod Queue
pub mod Interleave
pub mod Pending
pub mod Delivery
pub mod Capture
pub mod Frames
mod Tests
pub mod Reliable
pub mod Packed
