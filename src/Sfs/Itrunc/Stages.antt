-- ===== src/Sfs/Itrunc/Stages.antt =====
-- The parts of `sfs_itrunc` up to its last lines.
use ops_class.Base.{
  ℕ, ◌+◌, ◌-◌, ◌<◌, ◌≡◌, ◌≢◌, refl, ◌∙◌, true, false, ◌&&◌, not, ◌==◌, arith, inl, inr, Bool-cases,
  ==→eq, ap, ltb, leb, List,
}
use ops_class.Base.Run.{done}
use ops_class.Bitmap.{isset}
use ops_class.Vfs.BigLock.{do_i_hold}
use ops_class.Sfs.Device.{Contents}
use ops_class.Sfs.State.{File}
use ops_class.Sfs.Balloc.Laws.{Ready}
use ops_class.Sfs.Bmap.{ndirect, dbperidb}
use ops_class.Sfs.Bmap.Map.{slot, Sane}
use ops_class.Sfs.Itrunc.{drop_direct}
use ops_class.Sfs.Itrunc.Freed.{Freed-start}
use ops_class.Sfs.Itrunc.Direct.{Dropped, drop_direct_lem}
use ops_class.Sfs.Itrunc.Pointers.{near_at, far_at, near_used, near_apart, near-index}
use ops_class.Sfs.Itrunc.Cut.{Mid}

-- The file once the big lock is one deeper.
abbrev pub locked : {D : Type 0} → File D → File D
locked f = record f {
  fs = record (f.fs) { biglock = record (f.fs.biglock) { depth = f.fs.biglock.depth + 1 } };
}

slot_none : (c : ℕ → List ℕ) (indirect i : ℕ) → indirect ≡ 0 → slot c indirect i ≡ 0
unfolding slot
slot_none c indirect i e = ground (arith, e)

module _ {D : Type 0} {contents : D → Contents} {size : ℕ} {f : File D}
    (sane : Sane contents size f) (blocklen : ℕ) where
  pub locked-Ready : Ready size (locked f).fs
  unfolding do_i_hold
  locked-Ready = record {
    held = sane.ready.held;
    map_valid = sane.ready.map_valid;
    span = sane.ready.span;
    on_disk = sane.ready.on_disk;
    tail = sane.ready.tail;
    super = sane.ready.super;
  }

  -- The direct blocks are dropped.
  pub after_direct :
      (f' : File D) × (drop_direct ndirect 0 blocklen (locked f) ≡ done tt f')
      × Dropped size (locked f) blocklen ndirect f'
  after_direct =
      drop_direct_lem size (locked f) blocklen (near_used sane) (near_apart sane) ndirect 0
        (locked f) refl
        (record {
          freed = Freed-start size _ _ _ locked-Ready;
          directs = sane.directs;
          indirect = refl;
          same_size = refl;
          now = λ k. ground arith;
        })

  module _ (f2 : File D) (dr : Dropped size (locked f) blocklen ndirect f2) where
    -- A block that none of the inode's dropped pointers names is as it was.
    pub still_used :
        (b : ℕ)
        → ((k : ℕ)
            → k < ndirect
            → leb blocklen k ≡ true
            → near_at contents f k ≢ 0
            → near_at contents f k ≢ b)
        → isset f2.fs.freemap b ≡ isset f.fs.freemap b
    still_used b h = dr.freed.kept b h

    pub index_used : f.sv.indirect ≢ 0 → isset f2.fs.freemap f.sv.indirect ≡ true
    index_used some_ =
        still_used f.sv.indirect (λ k h p ne. near-index sane k h ne) ∙ (sane.index some_).1

    same_far : (j : ℕ) → far_at contents f2 j ≡ far_at contents f j
    same_far j = rw (dr.freed.device, dr.indirect) refl

    -- The indirect block need not be looked at.
    pub direct_only :
        (ltb blocklen (ndirect + dbperidb - 1) && not (f.sv.indirect == 0)) ≡ false
        → Mid contents size blocklen f f2
    direct_only off = record {
      ready = dr.freed.ready;
      lock = ap (λ b. b.lock) dr.freed.biglock;
      depth = ap (λ b. b.depth) dr.freed.biglock;
      curthread = dr.freed.curthread;
      nblocks = dr.freed.nblocks;
      directs = dr.directs;
      same_size = dr.same_size;
      near = dr.now;
      far = λ j h. elim (Bool-cases (ltb blocklen (ndirect + j))) [
        | inl past ↦ rw past (same_far j ∙ none_past j h past)
        | inr before ↦ rw before (same_far j)
      ];
      gone_near = dr.freed.gone;
      gone_far = λ j h past ne. absurd (ne (none_past j h past));
      kept = λ b ne h h'. still_used b h;
      index = inl (dr.indirect, still_used f.sv.indirect (λ k h p ne. near-index sane k h ne));
      stored = λ b ne. ap (λ d. contents d b) dr.freed.device;
    }
      where
        none_past :
            (j : ℕ) → j < dbperidb → ltb blocklen (ndirect + j) ≡ true → far_at contents f j ≡ 0
        none_past j h past =
            slot_none (contents f.fs.device) f.sv.indirect j
              (==→eq f.sv.indirect 0 (ground (arith, off, past)))
