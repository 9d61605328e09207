-- ===== src/Sfs/Bmap/Indirect.antt =====
-- `sfs_bmap` through the indirect block, fresh or read from the disk.
use ops_class.Base.{
  ℕ, ◌-◌, ◌<◌, ◌≡◌, refl, sym, ◌∙◌, true, ◌==◌, arith, inl, inr, Bool, Bool-cases, ◌+◌, ==→ne,
  ==→eq, ap, ne→==, replicate,
}
use ops_class.Base.Run.{Ensures, returns}
use ops_class.Sfs.Device.{Device, Contents, IsDisk}
use ops_class.Sfs.Words.{words, words-replicate, words_zeros}
use ops_class.Sfs.State.{Sfs, File, bind_fs}
use ops_class.Sfs.Io.Laws.{readblock_lem}
use ops_class.Sfs.Balloc.Laws.{Ready, Claimed, zeros, balloc-Balloc}
use ops_class.Sfs.Bmap.{ndirect, dbperidb, set_indirect, bmap_slot, bmap_indirect}
use ops_class.Sfs.Bmap.Map.{slot, block_of, Sane}
use ops_class.Sfs.Bmap.Frame.{mapped-split, Sane-index}
use ops_class.Sfs.Bmap.Outcome.{Got, Failed, untouched}
use ops_class.Sfs.Bmap.Claim.{claimed_used, claimed_now, claimed_ne_zero, Failed-untouched}
use ops_class.Sfs.Bmap.Step.{Same, Ensures-after, Grown-step, Same-read, no_block}
use ops_class.Sfs.Bmap.Loaded.{bmap_slot_lem}

-- A fresh indirect block `b`, which `sfs_balloc` has zeroed.
module _ {D : Type 0} {dev : Device D} {contents : D → Contents} {size : ℕ}
    (disk : IsDisk dev contents size) (f : File D) (sane : Sane contents size f)
    (none_ : f.sv.indirect ≡ 0) (b : ℕ) (s : Sfs D) (c : Claimed contents f.fs b s)
    (ready : Ready size s) where
  with_index : File D
  with_index = record { fs = s; sv = record (f.sv) { indirect = b; dirty = true } }

  index_same : (k : ℕ) → block_of contents with_index k ≡ block_of contents f k
  unfolding with_index slot
  index_same k =
      mapped-split (contents f.fs.device) (contents s.device) f.sv with_index.sv k (λ h. refl)
        (λ h l.
          rw (none_, ne→== b 0 (claimed_ne_zero f sane b s c), at_b)
            (words-replicate dbperidb 512 (k - ndirect)))
    where
      at_b : contents s.device b ≡ zeros
      at_b = ground (arith, c.stored b)

  with_index-Same : Same contents size f with_index
  unfolding with_index
  with_index-Same = record {
    sane =
        Sane-index f with_index sane ready sane.directs c.nblocks (claimed_used f sane b s c) b
          c.inside c.free (claimed_now f sane b s c) refl index_same;
    nblocks = c.nblocks;
    used = claimed_used f sane b s c;
    stored = λ j h. ground (arith, c.stored j, c.free, h);
    map = index_same;
    length_ = refl;
  }

  bmap_new_index :
      (idoff : ℕ) (doalloc : Bool)
      → idoff < dbperidb
      → Ensures
          (Got contents size f (ndirect + idoff) doalloc)
          (Failed contents size f (ndirect + idoff))
          (bmap_slot dev b idoff doalloc (replicate dbperidb 0) with_index)
  unfolding with_index
  bmap_new_index idoff doalloc in_block =
      Ensures-after with_index-Same (ndirect + idoff) doalloc (omega arith) (
        bmap_slot_lem disk with_index idoff doalloc (replicate dbperidb 0) with_index-Same.sane
          in_block (ap (words dbperidb) at_b ∙ words_zeros) (claimed_ne_zero f sane b s c))
    where
      at_b : contents s.device b ≡ zeros
      at_b = ground (arith, c.stored b)

module _ {D : Type 0} {dev : Device D} {contents : D → Contents} {size : ℕ}
    (disk : IsDisk dev contents size) where
  pub bmap_indirect_lem :
      (f : File D) (idoff : ℕ) (doalloc : Bool)
      → Sane contents size f
      → idoff < dbperidb
      → Ensures
          (Got contents size f (ndirect + idoff) doalloc)
          (Failed contents size f (ndirect + idoff))
          (bmap_indirect dev idoff doalloc f)
  unfolding bmap_indirect set_indirect with_index
  bmap_indirect_lem f idoff doalloc sane in_block = elim (Bool-cases (f.sv.indirect == 0)) [
    | inl none_ ↦ elim (Bool-cases doalloc) [
      | inl asked ↦
          rw (none_, asked)
            (bind_fs f _ (balloc-Balloc disk sane.ready)
              (λ b s (c, ready).
                bmap_new_index disk f sane (==→eq f.sv.indirect 0 none_) b s c ready idoff true
                  in_block)
              (λ e s (why, kept, ready).
                Failed-untouched f sane (ndirect + idoff) e s why kept ready))
      | inr no_ ↦
          rw (none_, no_) (returns (no_block f idoff sane in_block (==→eq f.sv.indirect 0 none_)))
    ]
    | inr some_ ↦ rw some_ (
        bind_fs f _
          (readblock_lem disk f.sv.indirect f.fs
            (omega (arith, (sane.index (==→ne f.sv.indirect 0 some_)).0, sane.ready.on_disk))
            sane.ready.held)
          (λ bytes s (e, same, blocks).
            let step = Same-read f sane s same blocks in
            Ensures-after step (ndirect + idoff) doalloc (omega arith) (
              bmap_slot_lem disk (record f { fs = s }) idoff doalloc (words dbperidb bytes)
                step.sane in_block (ap (words dbperidb) (blocks f.sv.indirect ∙ sym e))
                (==→ne f.sv.indirect 0 some_)))
          (λ e s (bad, same, blocks).
            let step = Same-read f sane s same blocks in
            untouched (inr bad) step.sane (Grown-step step) step.map))
  ]
