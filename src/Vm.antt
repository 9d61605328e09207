-- ===== src/Vm.antt =====
-- The virtual memory code: physical memory, the "dumb" VM system, copying from and to user space.
pub mod Ram
pub mod Dumbvm
pub mod Space
pub mod Copyinout
pub mod Kmalloc
mod Tests
