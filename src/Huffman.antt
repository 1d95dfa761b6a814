-- ===== src/Huffman.antt =====
-- Huffman tables and what is coded by them: the derived tables of encoder/vars.rs and the blocks of
-- coefficients of encoder/encode/compress.rs.
pub mod Derive
pub mod Prefix
pub mod Sizes
pub mod Symbols
pub mod Block
pub mod Value
pub mod Tokens
pub mod Emit
pub mod Bounds
mod Tests
