-- ===== src/Sfs.antt =====
-- kern/fs/sfs: the simple file system. The children follow its files: block I/O, block
-- allocation, the block map of a file, truncation.
pub mod Words
pub mod Device
pub mod State
pub mod Io
pub mod Balloc
pub mod Bmap
pub mod Itrunc
pub mod Metaio
pub mod Dir
mod Tests
