-- ===== src/Coder.antt =====
-- The entropy coder's bit writer: source/nwm_rs/src/encoder/encode/encode_buffer.rs and
-- BitEncoderState of source/nwm_rs/src/encoder/worker.rs.
pub mod Buffer
pub mod Escape
pub mod Stream
pub mod Finish
pub mod Direct
pub mod Kept
mod Tests
