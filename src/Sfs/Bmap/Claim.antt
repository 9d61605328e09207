-- ===== src/Sfs/Bmap/Claim.antt =====
-- A file for which `sfs_balloc` has claimed a block.
use ops_class.Base.{
  ℕ, ◌<◌, ◌≡◌, ◌≢◌, refl, ◌∙◌, true, false, ◌==◌, arith, inl, inr, Bool, Bool-cases, ==→ne, subst,
  ap, lt→ltb, ◌⊎◌, ◌&&◌,
}
use ops_class.Base.Run.{done, Errno, eio, enospc, Ensures, returns}
use ops_class.Bitmap.{isset}
use ops_class.Sfs.Device.{Contents}
use ops_class.Sfs.State.{Sfs, File}
use ops_class.Sfs.Balloc.{bused}
use ops_class.Sfs.Balloc.Laws.{Ready, Claimed, Kept}
use ops_class.Sfs.Bmap.{hand_back}
use ops_class.Sfs.Bmap.Map.{block_of, Sane}
use ops_class.Sfs.Bmap.Frame.{mapped-same, Sane-same}
use ops_class.Sfs.Bmap.Outcome.{Grown, Got, Failed, untouched}

module _ {D : Type 0} where
  pub hand_back-done :
      (block : ℕ) (f : File D)
      → (block ≢ 0 → (block < f.fs.nblocks) × (isset f.fs.freemap block ≡ true))
      → hand_back block f ≡ done block f
  unfolding hand_back bused
  hand_back-done block f h = elim (Bool-cases (block == 0)) [
    | inl is ↦ rw is
    | inr ne ↦ let used = h (==→ne block 0 ne) in rw (ne, lt→ltb block f.fs.nblocks used.0, used.1)
  ]

module _ {D : Type 0} {contents : D → Contents} {size : ℕ} (f : File D)
    (sane : Sane contents size f) where
  Grown-self : Grown contents size f f
  Grown-self = record { nblocks = refl; used = λ j h. h; stored = λ j h ne. refl; length_ = refl }

  -- The block is there, or none is wanted.
  pub Got-found :
      (fb : ℕ) (doalloc : Bool)
      → (doalloc ≡ false) ⊎ (block_of contents f fb ≢ 0)
      → Got contents size f fb doalloc (block_of contents f fb) f
  Got-found fb doalloc why = record {
    sane = sane;
    grown = Grown-self;
    here = refl;
    others = λ k ne. refl;
    kept = λ h. refl;
    fresh = λ asked none_. absurd (go why asked none_);
  }
    where
      go :
          (doalloc ≡ false) ⊎ (block_of contents f fb ≢ 0)
          → doalloc ≡ true
          → block_of contents f fb ≡ 0
          → ⊥
      go (inl no_) asked none_ = cc
      go (inr ne) asked none_ = ne none_

  -- A block claimed for the file is not its indirect block, so the map reads as before.
  pub index_stored :
      (b : ℕ) (s : Sfs D)
      → Claimed contents f.fs b s
      → f.sv.indirect ≢ 0
      → contents s.device f.sv.indirect ≡ contents f.fs.device f.sv.indirect
  index_stored b s c ne = ground (arith, c.stored f.sv.indirect, c.free, (sane.index ne).1)

  module _ (b : ℕ) (s : Sfs D) (c : Claimed contents f.fs b s) where
    pub claimed_used : (j : ℕ) → isset f.fs.freemap j ≡ true → isset s.freemap j ≡ true
    claimed_used j h = ground (arith, c.used j, h)

    pub claimed_now : isset s.freemap b ≡ true
    claimed_now = ground (arith, c.used b)

    pub claimed_ne_zero : b ≢ 0
    claimed_ne_zero e = absurd (cc (ap (isset f.fs.freemap) e, c.free, sane.ready.super))

    pub claimed_Grown :
        (f' : File D) → f'.fs ≡ s → f'.sv.size ≡ f.sv.size → Grown contents size f f'
    claimed_Grown f' e same = record {
      nblocks = rw e c.nblocks;
      used = rw e claimed_used;
      stored = λ j h ne. rw e (ground (arith, c.stored j, c.free, h));
      length_ = same;
    }

  -- An allocation that failed leaves the file as it was.
  pub Failed-untouched :
      (fb : ℕ) (e : Errno) (s : Sfs D)
      → (e ≡ enospc) ⊎ (e ≡ eio)
      → Kept contents f.fs s
      → Ready size s
      → Failed contents size f fb e (record f { fs = s })
  Failed-untouched fb e s why kept ready =
      untouched why
        (Sane-same f (record f { fs = s }) sane ready sane.directs kept.nblocks used refl same)
        (record {
          nblocks = kept.nblocks;
          used = used;
          stored = λ j h ne. kept.stored j h;
          length_ = refl;
        })
        same
    where
      used : (j : ℕ) → isset f.fs.freemap j ≡ true → isset s.freemap j ≡ true
      used j h = kept.used j ∙ h

      same : (k : ℕ) → block_of contents (record f { fs = s }) k ≡ block_of contents f k
      same k =
          mapped-same (contents f.fs.device) (contents s.device) f.sv f.sv k refl (λ h. refl)
            (λ ne. kept.stored f.sv.indirect (sane.index ne).1)

  -- The pointer that is there, or one that is not wanted, is handed back.
  pub hand_back_found :
      (fb : ℕ) (doalloc : Bool) (block : ℕ)
      → block_of contents f fb ≡ block
      → ((block == 0) && doalloc) ≡ false
      → Ensures (Got contents size f fb doalloc) (Failed contents size f fb) (hand_back block f)
  hand_back_found fb doalloc block e found =
      subst
        (λ b. Ensures (Got contents size f fb doalloc) (Failed contents size f fb) (hand_back b f))
        e
        (rw (hand_back-done (block_of contents f fb) f (sane.pointers fb))
          (returns (Got-found fb doalloc why)))
    where
      why : (doalloc ≡ false) ⊎ (block_of contents f fb ≢ 0)
      why = elim (Bool-cases doalloc) [
        | inl yes_ ↦ inr (λ z. ground (arith, e, z, found, yes_))
        | inr no_ ↦ inl no_
      ]
