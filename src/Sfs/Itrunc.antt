-- ===== src/Sfs/Itrunc.antt =====
-- `sfs_itrunc` of kern/fs/sfs/sfs_bmap.c: a file is cut to a length, and its blocks past it freed.
pub mod Freed
pub mod Direct
pub mod Sweep
pub mod Pointers
pub mod Cut
pub mod Stages
pub mod Index
pub mod Lock
pub mod Put
pub mod Finish
pub mod Laws
use ops_class.Base.{
  ℕ, zero, suc, ◌+◌, ◌-◌, ◌/◌, ◌%◌, ◌^◌, Bool, true, false, ◌&&◌, ◌||◌, not, List, ltb, leb, ◌==◌,
  if◌then◌else◌, get_or, set,
}
use ops_class.Base.Run.{Cmd, Run, done, fail, panicked, blocked, value, panic, ◌>>=◌, ◌>>◌}
use ops_class.Vfs.BigLock
use ops_class.Vfs.BigLock.{entered, waits, entry_panic}
use ops_class.Sfs.Device.{Device, block_size}
use ops_class.Sfs.Words.{words, bytes_of}
use ops_class.Sfs.State.{File, on_fs}
use ops_class.Sfs.Io.{readblock, writeblock}
use ops_class.Sfs.Balloc.{bfree}
use ops_class.Sfs.Bmap.{ndirect, dbperidb, set_direct, set_indirect}

-- The buffer with the words of the indirect block, and the two flags of the loop over it.
pub record Slots : Type 0 where
  pub idbuf : List ℕ
  pub hasnonzero : Bool
  pub iddirty : Bool

-- `DIVROUNDUP(len, SFS_BLOCKSIZE)`, as a `uint32_t`.
abbrev pub blocks_for : ℕ → ℕ
blocks_for len = (len + block_size - 1) / block_size % 2 ^ 32

module _ {D : Type 0} where
  -- `vfs_biglock_acquire()` and `vfs_biglock_release()`.
  pub lock_big : Cmd (File D) (Unit {0})
  lock_big f = elim (BigLock.acquire f.fs.biglock f.fs.curthread) [
    | entered big ↦ done tt (record f { fs = record (f.fs) { biglock = big } })
    | waits ↦ blocked
    | entry_panic ↦ panicked
  ]

  pub unlock_big : Cmd (File D) (Unit {0})
  unlock_big f = elim (BigLock.release f.fs.biglock f.fs.curthread) [
    | value big ↦ done tt (record f { fs = record (f.fs) { biglock = big } })
    | panic ↦ panicked
  ]

  -- `if (result) { vfs_biglock_release(); return result; }`
  pub unlocked_on_error : {A : Type 0} → Run (File D) A → Run (File D) A
  unlocked_on_error (done a f) = done a f
  unlocked_on_error (fail e f) = (unlock_big >> fail e) f
  unlocked_on_error panicked = panicked
  unlocked_on_error blocked = blocked

  -- The loop over the direct blocks from `i` on, with the rounds that are left.
  pub drop_direct : ℕ → ℕ → ℕ → Cmd (File D) (Unit {0})
  drop_direct zero i blocklen f = done tt f
  drop_direct (suc n) i blocklen f =
      let block = get_or f.sv.direct i 0 in
      let rest = drop_direct n (i + 1) blocklen in
      if leb blocklen i && not (block == 0)
      then (do on_fs (bfree block); set_direct i 0; rest) f
      else rest f

  -- The loop over the words of the indirect block.
  pub drop_slots : ℕ → ℕ → ℕ → Slots → Cmd (File D) Slots
  drop_slots zero j blocklen acc f = done acc f
  drop_slots (suc n) j blocklen acc f =
      let block = get_or acc.idbuf j 0 in
      if ltb blocklen (ndirect + j) && not (block == 0)
      then (on_fs (bfree block)
            >> drop_slots n (j + 1) blocklen
                (record acc { idbuf = set acc.idbuf j 0; iddirty = true }))
          f
      else drop_slots n (j + 1) blocklen
          (record acc { hasnonzero = acc.hasnonzero || not (block == 0) }) f

  -- The last lines: `sfi_size`, a `uint32_t`, `sv_dirty`, and the big lock.
  pub set_size : ℕ → Cmd (File D) (Unit {0})
  set_size len f =
      unlock_big (record f { sv = record (f.sv) { size = len % 2 ^ 32; dirty = true } })

module _ {D : Type 0} (dev : Device D) where
  -- The indirect block after the loop: freed, written back, or as it was.
  pub put_index : ℕ → Slots → Cmd (File D) (Unit {0})
  put_index idblock acc =
      if not acc.hasnonzero
      then on_fs (bfree idblock) >> set_indirect 0
      else if acc.iddirty
      then (λ f. unlocked_on_error (on_fs (writeblock dev idblock (bytes_of acc.idbuf)) f))
      else done tt

  -- The block `idblock`, read, gone through and put back, if it may hold a block past the end.
  pub look_index : ℕ → ℕ → Cmd (File D) (Unit {0})
  look_index idblock blocklen f =
      if ltb blocklen (ndirect + dbperidb - 1) && not (idblock == 0)
      then (do
        bytes ← (λ f. unlocked_on_error (on_fs (readblock dev idblock) f))
        acc ←
            drop_slots dbperidb 0 blocklen
              (record { idbuf = words dbperidb bytes; hasnonzero = false; iddirty = false })
        put_index idblock acc)
          f
      else done tt f

  pub drop_indirect : ℕ → Cmd (File D) (Unit {0})
  drop_indirect blocklen f = look_index f.sv.indirect blocklen f

  unfoldable pub itrunc : ℕ → Cmd (File D) (Unit {0})
  unfolding lock_big unlock_big unlocked_on_error drop_direct drop_slots set_size put_index
      drop_indirect look_index
  itrunc len = do
    lock_big
    drop_direct ndirect 0 (blocks_for len)
    drop_indirect (blocks_for len)
    set_size len
