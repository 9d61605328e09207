-- ===== src/Sfs/Bmap/Laws.antt =====
-- The contract of `sfs_bmap`.
use ops_class.Base.{
  ℕ, ◌-◌, ◌<◌, ◌≡◌, refl, true, false, ltb, leb, arith, inl, inr, Bool, Bool-cases, ◌≤◌, ltb→lt,
  ltb→le, subst, ◌/◌, ◌%◌, dec_lt,
}
use ops_class.Base.Run.{Ensures, fails}
use ops_class.Sfs.Device.{Device, Contents, IsDisk}
use ops_class.Sfs.State.{File}
use ops_class.Sfs.Bmap.{ndirect, dbperidb, nindirect, bmap_indirect, bmap}
use ops_class.Sfs.Bmap.Map.{nmapped, Sane}
use ops_class.Sfs.Bmap.Outcome.{Got, Failed, too_big}
use ops_class.Sfs.Bmap.Indirect.{bmap_indirect_lem}
use ops_class.Sfs.Bmap.Direct.{bmap_direct_lem}

module _ {D : Type 0} {dev : Device D} {contents : D → Contents} {size : ℕ}
    (disk : IsDisk dev contents size) {f : File D} (sane : Sane contents size f) where
  far_lem :
      (fb : ℕ) (doalloc : Bool)
      → ndirect ≤ fb
      → fb < nmapped
      → Ensures
          (Got contents size f fb doalloc)
          (Failed contents size f fb)
          (bmap_indirect dev ((fb - ndirect) % dbperidb) doalloc f)
  far_lem fb doalloc far small =
      subst
        (λ k.
          Ensures (Got contents size f k doalloc) (Failed contents size f k)
            (bmap_indirect dev ((fb - ndirect) % dbperidb) doalloc f))
        (omega arith)
        (bmap_indirect_lem disk f ((fb - ndirect) % dbperidb) doalloc sane (omega arith))

  -- On a sane file of a disk, `sfs_bmap` neither panics nor waits. If it returns 0, the file is
  -- sane, the block handed back is the one that the file then has there, the file's other blocks and
  -- all blocks that were in use are as before, but for the index block; a block that was there, or
  -- that was not to be allocated, is handed back as it was; one that was missing and was to be
  -- allocated is a block that was free, now full of zeros. It fails with EFBIG only past the last
  -- block of a file, the file unchanged; with ENOSPC or EIO and the file's blocks as they were; or
  -- with EIO after a write of the index block, which spoils at most what that block points to.
  pub bmap-Got :
      (fb : ℕ) (doalloc : Bool)
      → Ensures (Got contents size f fb doalloc) (Failed contents size f fb) (bmap dev fb doalloc f)
  unfolding bmap
  bmap-Got fb doalloc = rw sane.ready.held (elim (Bool-cases (ltb fb ndirect)) [
    | inl near ↦ rw near (bmap_direct_lem disk sane fb doalloc (ltb→lt fb ndirect near))
    | inr far ↦ rw far (elim (dec_lt fb nmapped) [
      | yes small ↦
          let one : leb nindirect ((fb - ndirect) / dbperidb) ≡ false = ground arith in
          rw one (far_lem fb doalloc (ltb→le fb ndirect far) small)
      | no big ↦
          let one : leb nindirect ((fb - ndirect) / dbperidb) ≡ true = ground arith in
          rw one (fails (too_big (omega arith) refl))
    ])
  ])
