-- ===== src/Memory.antt =====
-- mm.c: the page allocator.
pub mod Bitmap
pub mod Scan
pub mod Holes
pub mod Pool
