-- ===== src/Sfs/Bmap/Slot.antt =====
-- The indirect block with one more pointer in it.
use ops_class.Base.{
  ℕ, ◌-◌, ◌<◌, ◌≡◌, ◌≢◌, refl, sym, ◌∙◌, true, false, ◌==◌, if◌then◌else◌, get_or, length, arith,
  inl, inr, Bool, ◌+◌, List, set, subst, ap, get_or-set, length-set, ne→==, ◌⊎◌, ◌^◌,
}
use ops_class.Bitmap.{isset}
use ops_class.Sfs.Device.{Device, Contents, IsDisk}
use ops_class.Sfs.Words.{words, bytes_of, words-bytes_of, length-words, words-AreWords, AreWords}
use ops_class.Sfs.State.{Sfs, File}
use ops_class.Sfs.Io.Laws.{SameFs}
use ops_class.Sfs.Balloc.Laws.{Ready, Ready-SameFs, Claimed}
use ops_class.Sfs.Bmap.{ndirect, dbperidb}
use ops_class.Sfs.Bmap.Map.{slot, block_of, Sane}
use ops_class.Sfs.Bmap.Frame.{mapped_far, mapped-split, Sane-block}
use ops_class.Sfs.Bmap.Outcome.{Grown, Got}
use ops_class.Sfs.Bmap.Claim.{claimed_used, claimed_now, claimed_ne_zero}

module _ {D : Type 0} {dev : Device D} {contents : D → Contents} {size : ℕ}
    (disk : IsDisk dev contents size) (f : File D) (sane : Sane contents size f) (idoff : ℕ)
    (in_block : idoff < dbperidb) (idbuf : List ℕ)
    (loaded : words dbperidb (contents f.fs.device f.sv.indirect) ≡ idbuf)
    (exists_ : f.sv.indirect ≢ 0) where
  pub at_slot : block_of contents f (ndirect + idoff) ≡ get_or idbuf idoff 0
  unfolding slot
  at_slot =
      mapped_far (contents f.fs.device) f.sv (ndirect + idoff) (omega arith) (omega arith)
      ∙ rw (ne→== f.sv.indirect 0 exists_, loaded) (ap (λ k. get_or idbuf k 0) (omega arith))

  -- After the allocation, with the new pointer written into the indirect block.
  module _ (b : ℕ) (s s' : Sfs D) (c : Claimed contents f.fs b s) (ready : Ready size s)
      (same : SameFs s s')
      (wrote : (k : ℕ)
        → contents s'.device k ≡ (
            if f.sv.indirect == k then bytes_of (set idbuf idoff b) else contents s.device k)) where
    length-idbuf : length idbuf ≡ dbperidb
    length-idbuf = ap length (sym loaded) ∙ length-words dbperidb _

    slots :
        (i : ℕ)
        → get_or (words dbperidb (contents s'.device f.sv.indirect)) i 0
          ≡ (if idoff == i then b else get_or idbuf i 0)
    slots i =
        ap (λ z. get_or (words dbperidb z) i 0) stored
        ∙ ap (λ z. get_or z i 0) read_back
        ∙ get_or-set idbuf idoff i b 0 (omega (arith, length-idbuf))
      where
        stored : contents s'.device f.sv.indirect ≡ bytes_of (set idbuf idoff b)
        stored = ground (arith, wrote f.sv.indirect)

        old : (j : ℕ) → get_or idbuf j 0 < 2 ^ 32
        old j =
            rw (← loaded)
              (words-AreWords dbperidb _ (disk.blocks f.fs.device f.sv.indirect).bytes j)

        small : b < 2 ^ 32
        small = omega (arith, c.inside, sane.ready.span, sane.ready.map_valid.small)

        new : AreWords (set idbuf idoff b)
        new j = ground (arith, get_or-set idbuf idoff j b 0, length-idbuf, old j, small)

        read_back : words dbperidb (bytes_of (set idbuf idoff b)) ≡ set idbuf idoff b
        read_back =
            subst (λ n. words n (bytes_of (set idbuf idoff b)) ≡ set idbuf idoff b)
              (length-set idbuf idoff b ∙ length-idbuf) (words-bytes_of (set idbuf idoff b) new)

    used' : (j : ℕ) → isset f.fs.freemap j ≡ true → isset s'.freemap j ≡ true
    used' j h = rw same.freemap (claimed_used f sane b s c j h)

    pub now' : isset s'.freemap b ≡ true
    now' = rw same.freemap (claimed_now f sane b s c)

    here' : block_of contents (record f { fs = s' }) (ndirect + idoff) ≡ b
    unfolding slot
    here' =
        mapped_far (contents s'.device) f.sv (ndirect + idoff) (omega arith) (omega arith)
        ∙ rw (ne→== f.sv.indirect 0 exists_) (slots (ndirect + idoff - ndirect) ∙ ground arith)

    others' :
        (k : ℕ)
        → k ≢ ndirect + idoff
        → block_of contents (record f { fs = s' }) k ≡ block_of contents f k
    unfolding slot
    others' k ne =
        mapped-split (contents f.fs.device) (contents s'.device) f.sv f.sv k (λ h. refl)
          (λ h l.
            rw (ne→== f.sv.indirect 0 exists_, loaded)
              (slots (k - ndirect) ∙ rw (ne→== idoff (k - ndirect) (omega arith))))

    pub Grown-slot : Grown contents size f (record f { fs = s' })
    Grown-slot = record {
      nblocks = same.nblocks ∙ c.nblocks;
      used = used';
      stored = λ j h ne. ground (arith, wrote j, c.stored j, c.free, h, ne);
      length_ = refl;
    }

    pub Got-slot :
        (doalloc : Bool)
        → doalloc ≡ true
        → block_of contents f (ndirect + idoff) ≡ 0
        → Got contents size f (ndirect + idoff) doalloc b (record f { fs = s' })
    Got-slot doalloc asked missing = record {
      sane =
          Sane-block f (record f { fs = s' }) sane (Ready-SameFs same ready) sane.directs
            (same.nblocks ∙ c.nblocks) used' b c.inside c.free now' (ndirect + idoff) refl here'
            others';
      grown = Grown-slot;
      here = here';
      others = others';
      kept = λ h. absurd (go h);
      fresh = λ _ _. (
        claimed_ne_zero f sane b s c,
        c.free,
        ground (arith, wrote b, c.stored b, c.free, (sane.index exists_).1, apart),
      );
    }
      where
        apart : f.sv.indirect ≢ b
        apart e = absurd (cc (ap (isset f.fs.freemap) e, c.free, (sane.index exists_).1))

        go : (doalloc ≡ false) ⊎ (block_of contents f (ndirect + idoff) ≢ 0) → ⊥
        go (inl no_) = cc
        go (inr ne) = ne missing
