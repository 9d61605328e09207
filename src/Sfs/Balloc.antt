-- ===== src/Sfs/Balloc.antt =====
-- kern/fs/sfs/sfs_balloc.c: allocating and freeing disk blocks.
pub mod Laws
use ops_class.Base.{ℕ, ltb, if◌then◌else◌, List, Bool, true, replicate}
use ops_class.Base.Run.{Cmd, Run, done, fail, panicked, blocked, Checked, value, panic, Errno}
use ops_class.Bitmap
use ops_class.Bitmap.{Bitmap}
use ops_class.Sfs.Device.{Device, block_size}
use ops_class.Sfs.State.{Sfs}
use ops_class.Sfs.Io.{writeblock}

-- `bitmap_unmark` after a failed `sfs_clearblock`.
pub unmarked_after : {D : Type 0} → Errno → Sfs D → Checked Bitmap → Run (Sfs D) ℕ
unmarked_after e s (value map) = fail e (record s { freemap = map })
unmarked_after e s panic = panicked

module _ {D : Type 0} (dev : Device D) where
  unfoldable pub clearblock : ℕ → Cmd (Sfs D) (Unit {0})
  unfolding writeblock
  clearblock block = writeblock dev block (replicate block_size 0)

  -- What `sfs_balloc` makes of the answer of `sfs_clearblock`.
  pub cleared : ℕ → Run (Sfs D) (Unit {0}) → Run (Sfs D) ℕ
  cleared block (done _ s) = done block s
  cleared block (fail e s) = unmarked_after e s (Bitmap.unmark s.freemap block)
  cleared block panicked = panicked
  cleared block blocked = blocked

  -- What it makes of the answer of `bitmap_alloc`.
  pub claimed : Sfs D → Run Bitmap ℕ → Run (Sfs D) ℕ
  claimed s (done block map) =
      if ltb block s.nblocks
      then cleared block (clearblock block (record s { freemap = map; freemapdirty = true }))
      else panicked
  claimed s (fail e map) = fail e (record s { freemap = map })
  claimed s panicked = panicked
  claimed s blocked = blocked

  unfoldable pub balloc : Cmd (Sfs D) ℕ
  unfolding claimed cleared unmarked_after clearblock
  balloc s = claimed s (Bitmap.alloc s.freemap)

-- `bitmap_unmark` panics on a block that is free.
unfoldable pub bfree : {D : Type 0} → ℕ → Cmd (Sfs D) (Unit {0})
bfree block s = elim (Bitmap.unmark s.freemap block) [
  | value map ↦ done tt (record s { freemap = map; freemapdirty = true })
  | panic ↦ panicked
]

unfoldable pub bused : {D : Type 0} → Sfs D → ℕ → Checked Bool
bused s block = if ltb block s.nblocks then value (Bitmap.isset s.freemap block) else panic
