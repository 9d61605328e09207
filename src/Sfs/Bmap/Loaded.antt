-- ===== src/Sfs/Bmap/Loaded.antt =====
-- `sfs_bmap` from the point where the indirect block is in memory.
use ops_class.Base.{
  ℕ, ◌<◌, ◌≡◌, ◌≢◌, refl, sym, ◌∙◌, ◌==◌, get_or, length, arith, inl, inr, Bool, Bool-cases, ◌+◌,
  List, set, ap, length-set, ◌&&◌,
}
use ops_class.Base.Run.{eio, Ensures, returns}
use ops_class.Sfs.Device.{Device, Contents, IsDisk, IsBlock}
use ops_class.Sfs.Words.{words, bytes_of, length-words, length-bytes_of, bytes_of-lt}
use ops_class.Sfs.State.{Sfs, File, bind_fs}
use ops_class.Sfs.Io.Laws.{SameFs, writeblock_lem}
use ops_class.Sfs.Balloc.Laws.{Ready, Ready-SameFs, Claimed, balloc-Balloc}
use ops_class.Sfs.Bmap.{ndirect, dbperidb, bmap_slot}
use ops_class.Sfs.Bmap.Map.{block_of, Sane}
use ops_class.Sfs.Bmap.Frame.{mapped_near}
use ops_class.Sfs.Bmap.Outcome.{Got, Failed, spoilt}
use ops_class.Sfs.Bmap.Claim.{hand_back-done, hand_back_found, claimed_used, Failed-untouched}
use ops_class.Sfs.Bmap.Slot.{at_slot, now', Got-slot}

IsBlock-of_words : (ws : List ℕ) → length ws ≡ dbperidb → IsBlock (bytes_of ws)
IsBlock-of_words ws e = record { sized = omega (arith, length-bytes_of ws); bytes = bytes_of-lt ws }

module _ {D : Type 0} {dev : Device D} {contents : D → Contents} {size : ℕ}
    (disk : IsDisk dev contents size) where
  -- `sfs_bmap` from the point where the indirect block is in `idbuf`.
  pub bmap_slot_lem :
      (f : File D) (idoff : ℕ) (doalloc : Bool) (idbuf : List ℕ)
      → Sane contents size f
      → idoff < dbperidb
      → words dbperidb (contents f.fs.device f.sv.indirect) ≡ idbuf
      → f.sv.indirect ≢ 0
      → Ensures
          (Got contents size f (ndirect + idoff) doalloc)
          (Failed contents size f (ndirect + idoff))
          (bmap_slot dev f.sv.indirect idoff doalloc idbuf f)
  unfolding bmap_slot
  bmap_slot_lem f idoff doalloc idbuf sane in_block loaded exists_ =
      elim (Bool-cases (get_or idbuf idoff 0 == 0 && doalloc)) [
        | inl want ↦ rw want (
            bind_fs f _ (balloc-Balloc disk sane.ready)
              (λ b s (c, ready).
                bind_fs (record f { fs = s }) _
                  (writeblock_lem disk f.sv.indirect (bytes_of (set idbuf idoff b)) s
                    (omega (arith, (sane.index exists_).0, sane.ready.on_disk))
                    (IsBlock-of_words _
                      (length-set idbuf idoff b ∙ ap length (sym loaded) ∙ length-words dbperidb _))
                    ready.held)
                  (λ _ s' (same, wrote).
                    rw
                      (hand_back-done b (record f { fs = s' })
                        (λ ne. (
                          rw (same.nblocks, c.nblocks) c.inside,
                          now' disk f sane idoff in_block idbuf loaded exists_ b s s' c ready same
                              wrote,
                        )))
                      (returns (
                        Got-slot disk f sane idoff in_block idbuf loaded exists_ b s s' c ready same
                          wrote doalloc (ground (arith, want)) (at ∙ ground (arith, want)))))
                  (λ e s' (bad, same, kept). rw bad (spoil b s s' c ready same kept)))
              (λ e s (why, kept, ready).
                Failed-untouched f sane (ndirect + idoff) e s why kept ready))
        | inr found ↦
            rw found
              (hand_back_found f sane (ndirect + idoff) doalloc (get_or idbuf idoff 0) at found)
      ]
    where
      at : block_of contents f (ndirect + idoff) ≡ get_or idbuf idoff 0
      at = at_slot disk f sane idoff in_block idbuf loaded exists_

      spoil :
          (b : ℕ) (s s' : Sfs D)
          → Claimed contents f.fs b s
          → Ready size s
          → SameFs s s'
          → ((k : ℕ) → f.sv.indirect ≢ k → contents s'.device k ≡ contents s.device k)
          → Failed contents size f (ndirect + idoff) eio (record f { fs = s' })
      spoil b s s' c ready same kept =
          spoilt (Ready-SameFs same ready)
            (record {
              nblocks = same.nblocks ∙ c.nblocks;
              used = λ j h. rw same.freemap (claimed_used f sane b s c j h);
              stored = λ j h ne. kept j (λ e. ne (sym e)) ∙ ground (arith, c.stored j, c.free, h);
              length_ = refl;
            })
            (λ k h.
              mapped_near (contents s'.device) f.sv k h
              ∙ sym (mapped_near (contents f.fs.device) f.sv k h))
