-- ===== src/Libc.antt =====
-- common/libc: the C library code shared by the kernel and user programs.
pub mod Memory
pub mod Strings
mod Tests
