-- ===== src/Sfs/Itrunc/Index.antt =====
-- The indirect block, when `sfs_itrunc` looks at it.
use ops_class.Base.{
  ℕ, ◌+◌, ◌<◌, ◌≡◌, ◌≢◌, refl, sym, ◌∙◌, true, false, arith, ◌⊎◌, ap, subst, if◌then◌else◌, get_or,
  ltb, leb, length, List,
}
use ops_class.Base.Run.{done}
use ops_class.Bitmap.{isset}
use ops_class.Sfs.Device.{Contents}
use ops_class.Sfs.Words.{words, length-words}
use ops_class.Sfs.State.{Sfs, File}
use ops_class.Sfs.Io.Laws.{SameFs, SameBlocks}
use ops_class.Sfs.Balloc.Laws.{Ready, Ready-SameFs}
use ops_class.Sfs.Bmap.{ndirect, dbperidb}
use ops_class.Sfs.Bmap.Map.{slot, Sane}
use ops_class.Sfs.Itrunc.{Slots, drop_slots}
use ops_class.Sfs.Itrunc.Freed.{Freed-start}
use ops_class.Sfs.Itrunc.Direct.{Dropped}
use ops_class.Sfs.Itrunc.Sweep.{Swept, drop_slots_lem}
use ops_class.Sfs.Itrunc.Pointers.{
  near_at, far_at, near-far, near-index, far_used, far_apart, far-index,
}
use ops_class.Sfs.Itrunc.Cut.{Mid}
use ops_class.Sfs.Itrunc.Stages.{locked, still_used, index_used}

pub slot_some :
    (c : ℕ → List ℕ) (indirect i : ℕ)
    → indirect ≢ 0
    → slot c indirect i ≡ get_or (words dbperidb (c indirect)) i 0
unfolding slot
slot_some c indirect i ne = ground (arith, ne)

module _ {D : Type 0} {contents : D → Contents} {size : ℕ} {f : File D}
    (sane : Sane contents size f) (blocklen : ℕ) (some_ : f.sv.indirect ≢ 0) (f2 : File D)
    (dr : Dropped size (locked f) blocklen ndirect f2) (s : Sfs D) (same : SameFs f2.fs s)
    (blocks : SameBlocks contents f2.fs s) where
  abbrev pub with_index : File D
  with_index = record f2 { fs = s }

  abbrev pub index_words : List ℕ
  index_words = words dbperidb (contents f.fs.device f.sv.indirect)

  word_at : (j : ℕ) → get_or index_words j 0 ≡ far_at contents f j
  word_at j = sym (slot_some (contents f.fs.device) f.sv.indirect j some_)

  loaded_used :
      (j : ℕ)
      → j < dbperidb
      → get_or index_words j 0 ≢ 0
      → (get_or index_words j 0 < s.nblocks) × (isset s.freemap (get_or index_words j 0) ≡ true)
  loaded_used j h =
      subst (λ b. b ≢ 0 → (b < s.nblocks) × (isset s.freemap b ≡ true)) (sym (word_at j))
        (λ ne.
          let old = far_used sane j h ne in
          (
            rw (same.nblocks, dr.freed.nblocks) old.0,
            rw same.freemap (
                still_used sane blocklen f2 dr (far_at contents f j)
                  (λ k h' p ne'. near-far sane k j h' h ne')
                ∙ old.1),
          ))

  loaded_apart :
      (k l : ℕ)
      → k < l
      → l < dbperidb
      → get_or index_words k 0 ≢ 0
      → get_or index_words k 0 ≢ get_or index_words l 0
  loaded_apart k l h h' ne e =
      far_apart sane k l h h' (λ z. ne (word_at k ∙ z)) (sym (word_at k) ∙ e ∙ word_at l)

  -- The loop over the slots.
  pub after_slots :
      (f4 : File D) × (acc : Slots) × (drop_slots dbperidb 0 blocklen
          (record { idbuf = index_words; hasnonzero = false; iddirty = false })
          with_index
        ≡ done acc f4)
      × Swept size with_index blocklen index_words dbperidb f4 acc
  after_slots =
      drop_slots_lem size with_index blocklen index_words (length-words dbperidb _) loaded_used
        loaded_apart dbperidb 0 with_index _ refl
        (record {
          freed = Freed-start size _ _ _ (Ready-SameFs same dr.freed.ready);
          inode = refl;
          sized = refl;
          now = λ k. ground arith;
          none_left = λ h k below. absurd (omega arith);
          some_left = λ h. absurd (cc);
          clean = λ h k. refl;
        })

  module _ (f4 : File D) (acc : Slots)
      (sw : Swept size with_index blocklen index_words dbperidb f4 acc) where
    pub index_still : isset f4.fs.freemap f.sv.indirect ≡ true
    index_still =
        sw.freed.kept f.sv.indirect
          (λ k h p ne e. far-index sane k h (λ z. ne (word_at k ∙ z)) (sym (word_at k) ∙ e))
        ∙ (rw same.freemap (index_used sane blocklen f2 dr some_))

    -- The slots after the loop, in terms of the file before it.
    pub slots_now :
        (j : ℕ)
        → j < dbperidb
        → get_or acc.idbuf j 0 ≡ (if ltb blocklen (ndirect + j) then 0 else far_at contents f j)
    slots_now j h = ground (arith, sw.now j, word_at j)

    -- What is known of every file that shares its inode's direct pointers and all the blocks in
    -- use with `f4`, but for the index block.
    module _ (f5 : File D) (ready : Ready size f5.fs) (lock : f5.fs.biglock ≡ f4.fs.biglock)
        (thread : f5.fs.curthread ≡ f4.fs.curthread) (n : f5.fs.nblocks ≡ f4.fs.nblocks)
        (direct : f5.sv.direct ≡ f2.sv.direct) (size_ : f5.sv.size ≡ f2.sv.size)
        (used : (b : ℕ) → b ≢ f.sv.indirect → isset f5.fs.freemap b ≡ isset f4.fs.freemap b)
        (stored : (b : ℕ) → b ≢ f.sv.indirect → contents f5.fs.device b ≡ contents f4.fs.device b)
        (far : (j : ℕ) → j < dbperidb → far_at contents f5 j ≡ get_or acc.idbuf j 0) where
      abbrev IndexOutcome : Type 0
      IndexOutcome =
          ((f5.sv.indirect ≡ f.sv.indirect)
            × (isset f5.fs.freemap f.sv.indirect ≡ isset f.fs.freemap f.sv.indirect))
          ⊎ ((f5.sv.indirect ≡ 0)
              × (isset f5.fs.freemap f.sv.indirect ≡ false)
              × ((j : ℕ) → j < dbperidb → far_at contents f5 j ≡ 0))

      pub through_index : IndexOutcome → Mid contents size blocklen f f5
      through_index outcome = record {
        ready = ready;
        lock = ap (λ b. b.lock) old_lock;
        depth = ap (λ b. b.depth) old_lock;
        curthread = thread ∙ sw.freed.curthread ∙ same.curthread ∙ dr.freed.curthread;
        nblocks = n ∙ sw.freed.nblocks ∙ same.nblocks ∙ dr.freed.nblocks;
        directs = ap length direct ∙ dr.directs;
        same_size = size_ ∙ dr.same_size;
        near = λ k. ap (λ l. get_or l k 0) direct ∙ dr.now k;
        far = λ j h. far j h ∙ slots_now j h;
        gone_near = gone_near;
        gone_far = gone_far;
        kept = kept;
        index = outcome;
        stored = λ b ne.
            stored b ne
            ∙ ap (λ d. contents d b) sw.freed.device
            ∙ blocks b
            ∙ ap (λ d. contents d b) dr.freed.device;
      }
        where
          old_lock : f5.fs.biglock ≡ (locked f).fs.biglock
          old_lock = lock ∙ sw.freed.biglock ∙ same.biglock ∙ dr.freed.biglock

          gone_near :
              (k : ℕ)
              → k < ndirect
              → leb blocklen k ≡ true
              → near_at contents f k ≢ 0
              → isset f5.fs.freemap (near_at contents f k) ≡ false
          gone_near k h p ne =
              used (near_at contents f k) (near-index sane k h ne)
              ∙ sw.freed.kept (near_at contents f k)
                  (λ j h' p' ne' e. near-far sane k j h h' ne (sym e ∙ word_at j))
              ∙ (rw same.freemap (dr.freed.gone k h p ne))

          gone_far :
              (j : ℕ)
              → j < dbperidb
              → ltb blocklen (ndirect + j) ≡ true
              → far_at contents f j ≢ 0
              → isset f5.fs.freemap (far_at contents f j) ≡ false
          gone_far j h p ne =
              used (far_at contents f j) (far-index sane j h ne)
              ∙ subst (λ b. isset f4.fs.freemap b ≡ false) (word_at j)
                  (sw.freed.gone j h p (λ z. ne (sym (word_at j) ∙ z)))

          kept :
              (b : ℕ)
              → b ≢ f.sv.indirect
              → ((k : ℕ)
                  → k < ndirect
                  → leb blocklen k ≡ true
                  → near_at contents f k ≢ 0
                  → near_at contents f k ≢ b)
              → ((j : ℕ)
                  → j < dbperidb
                  → ltb blocklen (ndirect + j) ≡ true
                  → far_at contents f j ≢ 0
                  → far_at contents f j ≢ b)
              → isset f5.fs.freemap b ≡ isset f.fs.freemap b
          kept b ne h h' =
              used b ne
              ∙ sw.freed.kept b
                  (λ j below p ne' e. h' j below p (λ z. ne' (word_at j ∙ z)) (sym (word_at j) ∙ e))
              ∙ ap (λ m. isset m b) same.freemap
              ∙ still_used sane blocklen f2 dr b h
