-- ===== src/Jpeg.antt =====
-- The JPEG encoder: source/nwm_rs/src/encoder.
pub mod Quant
pub mod Quality
pub mod Tables
pub mod Writer
pub mod Headers
pub mod Segments
mod Tests
