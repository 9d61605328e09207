-- ===== src/Vfs/BigLock.antt =====
-- The recursive VFS big lock of kern/vfs/vfslist.c, over the lock of kern/thread/synch.c.
pub mod Laws
use ops_class.Base.{ℕ, ◌+◌, ◌-◌, ◌%◌, ◌^◌, Bool, false, not, ◌==◌, ltb, if◌then◌else◌}
use ops_class.Base.Run.{Checked, value, panic}
use ops_class.Synch.Lock
use ops_class.Synch.Lock.{Lock, Acquire, acquired, sleeps, asserts}

-- `vfs_biglock` and `vfs_biglock_depth`.
pub record BigLock : Type 0 where
  pub lock : Lock
  pub depth : ℕ

unfoldable pub do_i_hold : BigLock → ℕ → Bool
do_i_hold big curthread = Lock.do_i_hold big.lock curthread

-- What `vfs_biglock_acquire` comes to at one look at the lock.
pub data Entry : Type 0 where
  entered : BigLock → Entry
  waits entry_panic : Entry

pub deeper : BigLock → Lock → BigLock
deeper big lock = record { lock = lock; depth = (big.depth + 1) % 2 ^ 32 }

unfoldable pub acquire : BigLock → ℕ → Entry
unfolding do_i_hold deeper
acquire big curthread =
    if do_i_hold big curthread
    then entered (deeper big big.lock)
    else elim (Lock.acquire big.lock false) [
      | acquired lock ↦ entered (deeper big lock)
      | sleeps ↦ waits
      | asserts ↦ entry_panic
    ]

unfoldable pub release : BigLock → ℕ → Checked BigLock
unfolding do_i_hold
release big curthread =
    if not (do_i_hold big curthread)
    then panic
    else if not (ltb 0 big.depth)
    then panic
    else if big.depth - 1 == 0
    then elim (Lock.release big.lock) [
      | value lock ↦ value (record { lock = lock; depth = big.depth - 1 })
      | panic ↦ panic
    ]
    else value (record big { depth = big.depth - 1 })
