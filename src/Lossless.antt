-- ===== src/Lossless.antt =====
-- The lossless encoder (encoder/encode/compress.rs): the copying, the uncompressed and the
-- predicting coders of a stripe.
pub mod Format
pub mod Planes
pub mod Predict
pub mod Copy
pub mod Rows
pub mod Delta
pub mod Decode
pub mod Stream
pub mod Choice
pub mod Nibbles
pub mod Parity
mod Tests
