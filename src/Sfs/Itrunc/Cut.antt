-- ===== src/Sfs/Itrunc/Cut.antt =====
-- What a call of `sfs_itrunc` comes to.
use ops_class.Base.{
  ℕ, ◌%◌, ◌^◌, ◌+◌, ◌<◌, ◌≡◌, ◌≢◌, Bool, true, false, ◌⊎◌, ◌&&◌, ltb, leb, if◌then◌else◌, length,
}
use ops_class.Base.Run.{Errno, eio}
use ops_class.Bitmap.{isset}
use ops_class.Sfs.Device.{Contents}
use ops_class.Sfs.State.{File}
use ops_class.Sfs.Balloc.Laws.{Ready}
use ops_class.Sfs.Bmap.{ndirect, dbperidb}
use ops_class.Sfs.Bmap.Map.{block_of, Sane}
use ops_class.Sfs.Itrunc.Pointers.{near_at, far_at}

-- The blocks of a file that are dropped when it is cut to `blocklen` blocks: the direct ones from
-- `blocklen` on, and those of the indirect block past `blocklen`.
abbrev pub past_end : ℕ → ℕ → Bool
past_end blocklen k = if ltb k ndirect then leb blocklen k else ltb blocklen k

module _ {D : Type 0} (contents : D → Contents) (size : ℕ) (blocklen : ℕ) (f : File D) where
  -- `sfs_itrunc` returned 0.
  pub record Cut (len : ℕ) (f' : File D) : Type 0 where
    pub sane : Sane contents size f'
    pub biglock : f'.fs.biglock ≡ f.fs.biglock
    pub nblocks : f'.fs.nblocks ≡ f.fs.nblocks
    pub now_size : f'.sv.size ≡ len % 2 ^ 32
    pub dirty : f'.sv.dirty ≡ true
    pub map :
        (k : ℕ)
        → block_of contents f' k ≡ (if past_end blocklen k then 0 else block_of contents f k)
    -- what is dropped is free, and nothing else has been freed but perhaps the index block
    pub gone :
        (k : ℕ)
        → past_end blocklen k ≡ true
        → block_of contents f k ≢ 0
        → isset f'.fs.freemap (block_of contents f k) ≡ false
    pub kept :
        (b : ℕ)
        → b ≢ f.sv.indirect
        → ((k : ℕ)
            → past_end blocklen k ≡ true
            → block_of contents f k ≢ 0
            → block_of contents f k ≢ b)
        → isset f'.fs.freemap b ≡ isset f.fs.freemap b
    -- the index block is as it was in use, or has been freed with all that it pointed to
    pub index :
        ((f'.sv.indirect ≡ f.sv.indirect)
          × (isset f'.fs.freemap f.sv.indirect ≡ isset f.fs.freemap f.sv.indirect))
        ⊎ ((f'.sv.indirect ≡ 0)
            × (isset f'.fs.freemap f.sv.indirect ≡ false)
            × ((j : ℕ) → j < dbperidb → block_of contents f' (ndirect + j) ≡ 0))
    pub stored : (b : ℕ) → b ≢ f.sv.indirect → contents f'.fs.device b ≡ contents f.fs.device b

  -- It returned EIO: the direct blocks are cut, the size is as it was.
  pub record Torn (e : Errno) (f' : File D) : Type 0 where
    pub why : e ≡ eio
    pub ready : Ready size f'.fs
    pub biglock : f'.fs.biglock ≡ f.fs.biglock
    pub same_size : f'.sv.size ≡ f.sv.size
    pub same_index : f'.sv.indirect ≡ f.sv.indirect
    pub near :
        (k : ℕ)
        → k < ndirect
        → block_of contents f' k ≡ (if leb blocklen k then 0 else block_of contents f k)

  -- What holds before the last lines, with the big lock one deeper.
  pub record Mid (f' : File D) : Type 0 where
    pub ready : Ready size f'.fs
    pub lock : f'.fs.biglock.lock ≡ f.fs.biglock.lock
    pub depth : f'.fs.biglock.depth ≡ f.fs.biglock.depth + 1
    pub curthread : f'.fs.curthread ≡ f.fs.curthread
    pub nblocks : f'.fs.nblocks ≡ f.fs.nblocks
    pub directs : length f'.sv.direct ≡ ndirect
    pub same_size : f'.sv.size ≡ f.sv.size
    pub near :
        (k : ℕ)
        → near_at contents f' k
          ≡ (if ltb k ndirect && leb blocklen k then 0 else near_at contents f k)
    pub far :
        (j : ℕ)
        → j < dbperidb
        → far_at contents f' j ≡ (if ltb blocklen (ndirect + j) then 0 else far_at contents f j)
    pub gone_near :
        (k : ℕ)
        → k < ndirect
        → leb blocklen k ≡ true
        → near_at contents f k ≢ 0
        → isset f'.fs.freemap (near_at contents f k) ≡ false
    pub gone_far :
        (j : ℕ)
        → j < dbperidb
        → ltb blocklen (ndirect + j) ≡ true
        → far_at contents f j ≢ 0
        → isset f'.fs.freemap (far_at contents f j) ≡ false
    pub kept :
        (b : ℕ)
        → b ≢ f.sv.indirect
        → ((k : ℕ)
            → k < ndirect
            → leb blocklen k ≡ true
            → near_at contents f k ≢ 0
            → near_at contents f k ≢ b)
        → ((j : ℕ)
            → j < dbperidb
            → ltb blocklen (ndirect + j) ≡ true
            → far_at contents f j ≢ 0
            → far_at contents f j ≢ b)
        → isset f'.fs.freemap b ≡ isset f.fs.freemap b
    pub index :
        ((f'.sv.indirect ≡ f.sv.indirect)
          × (isset f'.fs.freemap f.sv.indirect ≡ isset f.fs.freemap f.sv.indirect))
        ⊎ ((f'.sv.indirect ≡ 0)
            × (isset f'.fs.freemap f.sv.indirect ≡ false)
            × ((j : ℕ) → j < dbperidb → far_at contents f' j ≡ 0))
    pub stored : (b : ℕ) → b ≢ f.sv.indirect → contents f'.fs.device b ≡ contents f.fs.device b
