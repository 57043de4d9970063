-- ===== src/Clib.antt =====
-- The kernel's C library: src/lib.
pub mod Str
pub mod Lz4
pub mod Hashmap
