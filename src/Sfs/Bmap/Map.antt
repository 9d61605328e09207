-- ===== src/Sfs/Bmap/Map.antt =====
-- What a file's inode and the disk say together: the map from the blocks of the file to those of
-- the disk, and when a file is sane.
use ops_class.Base.{ℕ, ◌-◌, ◌<◌, ◌≡◌, ◌≢◌, true, ◌==◌, ltb, if◌then◌else◌, get_or, length, List}
use ops_class.Bitmap.{isset}
use ops_class.Sfs.Device.{Contents}
use ops_class.Sfs.Words.{words}
use ops_class.Sfs.State.{Vnode, File}
use ops_class.Sfs.Balloc.Laws.{Ready}
use ops_class.Sfs.Bmap.{ndirect, dbperidb}

-- The blocks that a file can have.
abbrev pub nmapped : ℕ
nmapped = 143

-- The slot `i` of the indirect block, which is all zeros where there is none.
unfoldable pub slot : (ℕ → List ℕ) → ℕ → ℕ → ℕ
slot stored indirect i = if indirect == 0 then 0 else get_or (words dbperidb (stored indirect)) i 0

-- The disk block of block `k` of the file; 0 where there is none.
unfoldable pub mapped : (ℕ → List ℕ) → Vnode → ℕ → ℕ
mapped stored sv k =
    if ltb k ndirect
    then get_or sv.direct k 0
    else if ltb k nmapped
    then slot stored sv.indirect (k - ndirect)
    else 0

module _ {D : Type 0} (contents : D → Contents) where
  abbrev pub block_of : File D → ℕ → ℕ
  block_of f = mapped (contents f.fs.device) f.sv

  -- The file system is fit to allocate from; the blocks of the file are in use and no two of its
  -- pointers are alike.
  pub record Sane (size : ℕ) (f : File D) : Type 0 where
    pub ready : Ready size f.fs
    pub directs : length f.sv.direct ≡ ndirect
    pub pointers :
        (k : ℕ)
        → block_of f k ≢ 0
        → (block_of f k < f.fs.nblocks) × (isset f.fs.freemap (block_of f k) ≡ true)
    pub index :
        f.sv.indirect ≢ 0
        → (f.sv.indirect < f.fs.nblocks) × (isset f.fs.freemap f.sv.indirect ≡ true)
    pub apart : (k l : ℕ) → block_of f k ≢ 0 → block_of f k ≡ block_of f l → k ≡ l
    pub apart_index : (k : ℕ) → block_of f k ≢ 0 → block_of f k ≢ f.sv.indirect
