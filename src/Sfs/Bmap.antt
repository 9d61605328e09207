-- ===== src/Sfs/Bmap.antt =====
-- `sfs_bmap` of kern/fs/sfs/sfs_bmap.c: from a block of a file to a block of the disk.
pub mod Map
pub mod Frame
pub mod Outcome
pub mod Claim
pub mod Direct
pub mod Slot
pub mod Step
pub mod Loaded
pub mod Indirect
pub mod Laws
use ops_class.Base.{
  ℕ, ◌-◌, ◌/◌, ◌%◌, ◌<◌, Bool, true, ◌&&◌, not, List, ◌==◌, ltb, leb, if◌then◌else◌, get_or, set,
  replicate,
}
use ops_class.Base.Run.{
  Cmd, Run, done, fail, panicked, blocked, value, panic, Errno, efbig, ◌>>=◌, ◌>>◌,
}
use ops_class.Vfs.BigLock
use ops_class.Sfs.Device.{Device}
use ops_class.Sfs.Words.{words, bytes_of}
use ops_class.Sfs.State.{Sfs, Vnode, File, on_fs}
use ops_class.Sfs.Io.{readblock, writeblock}
use ops_class.Sfs.Balloc.{balloc, bused}

-- `SFS_NDIRECT`, `SFS_DBPERIDB`, `SFS_NINDIRECT`.
abbrev pub ndirect : ℕ
ndirect = 15

abbrev pub dbperidb : ℕ
dbperidb = 128

abbrev pub nindirect : ℕ
nindirect = 1

module _ {D : Type 0} where
  -- `sv->sv_i.sfi_direct[fileblock] = block; sv->sv_dirty = true;`
  unfoldable pub set_direct : ℕ → ℕ → Cmd (File D) (Unit {0})
  set_direct fileblock block f =
      done tt
        (record f { sv = record (f.sv) { direct = set f.sv.direct fileblock block; dirty = true } })

  unfoldable pub set_indirect : ℕ → Cmd (File D) (Unit {0})
  set_indirect block f =
      done tt (record f { sv = record (f.sv) { indirect = block; dirty = true } })

  -- The last lines of both paths: a block that is marked free is a panic.
  pub hand_back : ℕ → Cmd (File D) ℕ
  hand_back block f = if block == 0 then done block f else elim (bused f.fs block) [
    | value used ↦ if used then done block f else panicked
    | panic ↦ panicked
  ]

module _ {D : Type 0} (dev : Device D) where
  pub bmap_direct : ℕ → Bool → Cmd (File D) ℕ
  unfolding set_direct hand_back
  bmap_direct fileblock doalloc f =
      let block = get_or f.sv.direct fileblock 0 in
      if block == 0 && doalloc
      then (do block ← on_fs (balloc dev); set_direct fileblock block; hand_back block) f
      else hand_back block f

  -- The slot `idoff` of the indirect block `idblock`, whose words are in `idbuf`.
  pub bmap_slot : ℕ → ℕ → Bool → List ℕ → Cmd (File D) ℕ
  unfolding hand_back
  bmap_slot idblock idoff doalloc idbuf =
      let block = get_or idbuf idoff 0 in
      if block == 0 && doalloc
      then (do
        block ← on_fs (balloc dev)
        on_fs (writeblock dev idblock (bytes_of (set idbuf idoff block)))
        hand_back block)
      else hand_back block

  -- The three cases of `idblock`; `idoff` is the offset in the indirect block.
  pub bmap_indirect : ℕ → Bool → Cmd (File D) ℕ
  unfolding bmap_slot set_indirect
  bmap_indirect idoff doalloc f =
      let idblock = f.sv.indirect in
      if idblock == 0 && not doalloc
      then done 0 f
      else if idblock == 0
      then (do
        idblock ← on_fs (balloc dev)
        set_indirect idblock
        bmap_slot idblock idoff doalloc (replicate dbperidb 0))
          f
      else (do
        bytes ← on_fs (readblock dev idblock)
        bmap_slot idblock idoff doalloc (words dbperidb bytes))
          f

  unfoldable pub bmap : ℕ → Bool → Cmd (File D) ℕ
  unfolding bmap_direct bmap_indirect
  bmap fileblock doalloc f =
      if not (BigLock.do_i_hold f.fs.biglock f.fs.curthread)
      then panicked
      else if ltb fileblock ndirect
      then bmap_direct fileblock doalloc f
      else let idnum = (fileblock - ndirect) / dbperidb in
        let idoff = (fileblock - ndirect) % dbperidb in
        if leb nindirect idnum then fail efbig f else bmap_indirect idoff doalloc f
