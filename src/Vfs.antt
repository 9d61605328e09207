-- ===== src/Vfs.antt =====
-- kern/vfs: what the file system uses of the VFS layer.
pub mod BigLock
mod Tests
