-- ===== src/Sink.antt =====
-- The byte sink of an encoder thread: source/nwm_rs/src/encoder/worker_dst.rs and what it calls,
-- rp_send_buffer and the size counters of source/nwm_rs/src/entries/thread_nwm/vars.rs.
pub mod Count
pub mod State
pub mod Send
pub mod Write
pub mod Stream
pub mod Fill
pub mod Kcp
mod Tests
