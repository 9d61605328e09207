-- ===== src/Sfs/Io.antt =====
-- kern/fs/sfs/sfs_io.c, the block layer: `sfs_rwblock` and the two calls over it.
pub mod Laws
use ops_class.Base.{ℕ, zero, suc, ◌*◌, if◌then◌else◌, List}
use ops_class.Base.Run.{Cmd, Run, done, fail, panicked, blocked, Errno, einval, eio}
use ops_class.Vfs.BigLock
use ops_class.Sfs.Device.{Device, block_size}
use ops_class.Sfs.State.{Sfs, on_device}

-- What `sfs_rwblock` does with the answer to one attempt; `again` is what it does on EIO.
pub on_answer : {D A : Type 0} → Run D A → Cmd D A → Run D A
on_answer (done a d) again = done a d
on_answer (fail einval d) again = panicked
on_answer (fail eio d) again = again d
on_answer (fail e d) again = fail e d
on_answer panicked again = panicked
on_answer blocked again = blocked

-- The attempts, with the retries that are left. It gives up with EIO.
pub attempts : {D A : Type 0} → ℕ → Cmd D A → Cmd D A
attempts zero op d = on_answer (op d) (fail eio)
attempts (suc n) op d = on_answer (op d) (attempts n op)

-- `tries` goes from 0 to 10.
unfoldable pub rwblock : {D A : Type 0} → Cmd D A → Cmd (Sfs D) A
unfolding attempts on_answer
rwblock op s =
    if BigLock.do_i_hold s.biglock s.curthread then on_device (attempts 10 op) s else panicked

module _ {D : Type 0} (dev : Device D) where
  unfoldable pub readblock : ℕ → Cmd (Sfs D) (List ℕ)
  unfolding rwblock
  readblock block = rwblock (dev.read (block * block_size))

  unfoldable pub writeblock : ℕ → List ℕ → Cmd (Sfs D) (Unit {0})
  unfolding rwblock
  writeblock block bytes = rwblock (dev.write (block * block_size) bytes)
