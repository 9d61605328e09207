-- ===== src/Sfs/State.antt =====
-- The state that the file system's operations read and write.
use ops_class.Base.{ℕ, Bool, List}
use ops_class.Base.Run.{
  Cmd, Run, done, fail, panicked, blocked, Errno, Ensures, returns, fails, and_then,
}
use ops_class.Vfs.BigLock.{BigLock}
use ops_class.Bitmap.{Bitmap}

-- `struct sfs_fs`: the state of `sfs_device`, the free map, `sb_nblocks`; beside it the VFS big
-- lock and the current thread.
pub record Sfs (D : Type 0) : Type 0 where
  pub device : D
  pub freemap : Bitmap
  pub freemapdirty : Bool
  pub nblocks : ℕ
  pub biglock : BigLock
  pub curthread : ℕ

-- `struct sfs_vnode` with its in-memory inode `sv_i`.
pub record Vnode : Type 0 where
  pub size : ℕ
  pub direct : List ℕ
  pub indirect : ℕ
  pub dirty : Bool

-- A file with the file system that it is in.
pub record File (D : Type 0) : Type 0 where
  pub fs : Sfs D
  pub sv : Vnode

module _ {D A : Type 0} where
  -- A command of the device, run from the file system.
  abbrev pub in_fs : Sfs D → Run D A → Run (Sfs D) A
  in_fs s (done a d) = done a (record s { device = d })
  in_fs s (fail e d) = fail e (record s { device = d })
  in_fs s panicked = panicked
  in_fs s blocked = blocked

  abbrev pub on_device : Cmd D A → Cmd (Sfs D) A
  on_device m s = in_fs s (m s.device)

  -- A command of the file system, run from one of its files.
  abbrev pub in_file : File D → Run (Sfs D) A → Run (File D) A
  in_file f (done a s) = done a (record f { fs = s })
  in_file f (fail e s) = fail e (record f { fs = s })
  in_file f panicked = panicked
  in_file f blocked = blocked

  abbrev pub on_fs : Cmd (Sfs D) A → Cmd (File D) A
  on_fs m f = in_file f (m f.fs)

module _ {D A B : Type 0} where
  -- The file system's command first, and then the rest, from the file with its new file system.
  pub bind_fs :
      {P : A → Sfs D → Type 0} {E : Errno → Sfs D → Type 0} {Q : B → File D → Type 0}
      {F : Errno → File D → Type 0} (f : File D) (k : A → Cmd (File D) B) {r : Run (Sfs D) A}
      → Ensures P E r
      → ((a : A) (s : Sfs D) → P a s → Ensures Q F (k a (record f { fs = s })))
      → ((e : Errno) (s : Sfs D) → E e s → F e (record f { fs = s }))
      → Ensures Q F (and_then (in_file f r) k)
  bind_fs f k (returns p) next weaken = next _ _ p
  bind_fs f k (fails p) next weaken = fails (weaken _ _ p)
