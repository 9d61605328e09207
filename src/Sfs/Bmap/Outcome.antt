-- ===== src/Sfs/Bmap/Outcome.antt =====
-- What a call of `sfs_bmap` comes to.
use ops_class.Base.{ℕ, ◌<◌, ◌≡◌, ◌≢◌, true, false, Bool, ◌≤◌, ◌⊎◌}
use ops_class.Base.Run.{Errno, eio, enospc, efbig}
use ops_class.Bitmap.{isset}
use ops_class.Sfs.Device.{Contents}
use ops_class.Sfs.State.{File}
use ops_class.Sfs.Balloc.Laws.{Ready, zeros}
use ops_class.Sfs.Bmap.{ndirect}
use ops_class.Sfs.Bmap.Map.{nmapped, block_of, Sane}

module _ {D : Type 0} (contents : D → Contents) (size : ℕ) (f : File D) where
  -- Blocks in use stay in use, and of these only the file's indirect block may change.
  pub record Grown (f' : File D) : Type 0 where
    pub nblocks : f'.fs.nblocks ≡ f.fs.nblocks
    pub used : (j : ℕ) → isset f.fs.freemap j ≡ true → isset f'.fs.freemap j ≡ true
    pub stored :
        (j : ℕ)
        → isset f.fs.freemap j ≡ true
        → j ≢ f'.sv.indirect
        → contents f'.fs.device j ≡ contents f.fs.device j
    pub length_ : f'.sv.size ≡ f.sv.size

  -- `sfs_bmap` returned 0 and handed back `block`.
  pub record Got (fileblock : ℕ) (doalloc : Bool) (block : ℕ) (f' : File D) : Type 0 where
    pub sane : Sane contents size f'
    pub grown : Grown f'
    pub here : block_of contents f' fileblock ≡ block
    pub others : (k : ℕ) → k ≢ fileblock → block_of contents f' k ≡ block_of contents f k
    -- what was there is handed back
    pub kept :
        (doalloc ≡ false) ⊎ (block_of contents f fileblock ≢ 0)
        → block ≡ block_of contents f fileblock
    -- what was missing has been allocated, if that was asked for
    pub fresh :
        doalloc ≡ true
        → block_of contents f fileblock ≡ 0
        → (block ≢ 0) × (isset f.fs.freemap block ≡ false) × (contents f'.fs.device block ≡ zeros)

  -- `sfs_bmap` returned an error.
  pub data Failed (fileblock : ℕ) : Errno → File D → Type 0 where
    too_big : nmapped ≤ fileblock → {f' : File D} → f' ≡ f → Failed fileblock efbig f'
    -- the file is as it was
    untouched :
        {e : Errno} {f' : File D}
        → (e ≡ enospc) ⊎ (e ≡ eio)
        → Sane contents size f'
        → Grown f'
        → ((k : ℕ) → block_of contents f' k ≡ block_of contents f k)
        → Failed fileblock e f'
    -- the indirect block could not be written; the inode's own pointers are as they were
    spoilt :
        {f' : File D}
        → Ready size f'.fs
        → Grown f'
        → ((k : ℕ) → k < ndirect → block_of contents f' k ≡ block_of contents f k)
        → Failed fileblock eio f'
