-- ===== src/Dev.antt =====
-- libdev: byte strings, fixed-size hashes, floating point values and the worker thread.
pub mod Float
pub mod Endian
pub mod Hex
pub mod Worker
pub mod FixedHash
