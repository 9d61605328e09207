-- ===== src/Sfs/Metaio.antt =====
-- `sfs_metaio` of kern/fs/sfs/sfs_io.c: reading and writing a piece of a block of a file.
pub mod Bytes
pub mod Paste
pub mod Outcome
pub mod Mapped
pub mod Read
pub mod Write
pub mod Sure
use ops_class.Base.{
  ℕ, zero, suc, ◌+◌, ◌/◌, ◌%◌, ◌^◌, Bool, true, false, not, List, [], ◌∷◌, ◌==◌, ltb, if◌then◌else◌,
  length, take, drop, replicate,
}
use ops_class.Base.Run.{Cmd, Run, done, fail, panicked, blocked, ◌>>=◌, ◌>>◌}
use ops_class.Vfs.BigLock
pub use ops_class.Klib.Uio.{UioRw, uio_read, uio_write}
use ops_class.Sfs.Device.{Device, block_size}
use ops_class.Sfs.State.{File, on_fs}
use ops_class.Sfs.Io.{readblock, writeblock}
use ops_class.Sfs.Bmap.{bmap}

-- `rw == UIO_WRITE`.
abbrev pub is_write : UioRw → Bool
is_write uio_read = false
is_write uio_write = true

-- `memcpy(buf + off, bytes, len)`: the buffer with the bytes in it.
pub paste : ℕ → List ℕ → List ℕ → List ℕ
paste off [] buf = buf
paste off (x ∷ xs) [] = []
paste zero (x ∷ xs) (b ∷ buf) = x ∷ paste zero xs buf
paste (suc off) (x ∷ xs) (b ∷ buf) = b ∷ paste off (x ∷ xs) buf

module _ {D : Type 0} where
  -- `endpos` against `sfi_size`, a `uint32_t`.
  pub extend : ℕ → Cmd (File D) (Unit {0})
  extend endpos f =
      if ltb f.sv.size endpos
      then done tt (record f { sv = record (f.sv) { size = endpos % 2 ^ 32; dirty = true } })
      else done tt f

module _ {D : Type 0} (dev : Device D) where
  -- What is done with the disk block `diskblock`. The answer is what the caller's buffer then holds.
  pub meta_block : ℕ → List ℕ → UioRw → ℕ → Cmd (File D) (List ℕ)
  meta_block actualpos bytes uio_read diskblock f =
      if diskblock == 0
      then done (replicate (length bytes) 0) f
      else (on_fs (readblock dev diskblock) >>= λ metaiobuf.
            done (take (length bytes) (drop (actualpos % block_size) metaiobuf)))
          f
  meta_block actualpos bytes uio_write diskblock f =
      if diskblock == 0
      then panicked
      else (do
        metaiobuf ← on_fs (readblock dev diskblock)
        on_fs (writeblock dev diskblock (paste (actualpos % block_size) bytes metaiobuf))
        extend (actualpos + length bytes)
        done bytes)
          f

  -- `bytes` is the caller's buffer, whose length is `len`.
  unfoldable pub metaio : ℕ → List ℕ → UioRw → Cmd (File D) (List ℕ)
  unfolding meta_block extend paste
  metaio actualpos bytes rw f =
      if not (BigLock.do_i_hold f.fs.biglock f.fs.curthread)
      then panicked
      else (bmap dev (actualpos / block_size % 2 ^ 32) (is_write rw)
            >>= meta_block actualpos bytes rw)
          f
