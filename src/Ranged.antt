-- ===== src/Ranged.antt =====
-- vars/ranged.rs: numbers from NB to NE (`nb` and `ne`), their wrapping steps, and the iterator.
pub mod Index
pub mod Walk
mod Tests
