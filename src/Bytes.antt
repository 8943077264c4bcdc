-- ===== src/Bytes.antt =====
-- Byte buffers: a fixed array or a slice of `u8` is a list of numbers below 256.
pub mod Slices
pub mod Words
pub mod Layout
