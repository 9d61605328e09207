-- ===== src/Klib.antt =====
-- kern/lib: the kernel's library, less the bitmap.
pub mod Bswap
pub mod Array
pub mod Uio
mod Tests
