-- ===== src/Sfs/Bmap/Step.antt =====
-- Steps of `sfs_bmap` that leave the file's map alone, and what its outcome is after one.
use ops_class.Base.{
  ℕ, ◌<◌, ◌≡◌, ◌≢◌, refl, sym, ◌∙◌, true, false, arith, inl, inr, Bool, Bool-cases, ◌+◌, subst, ◌⊎◌,
}
use ops_class.Base.Run
use ops_class.Base.Run.{
  Cmd, Run, done, fail, panicked, blocked, Errno, eio, enospc, efbig, Ensures, returns, fails,
  Checked, value, panic, and_then,
}
use ops_class.Bitmap.{isset}
use ops_class.Sfs.Device.{Contents}
use ops_class.Sfs.State.{Sfs, File}
use ops_class.Sfs.Io.Laws.{SameFs, SameBlocks}
use ops_class.Sfs.Balloc.Laws.{Ready-SameFs}
use ops_class.Sfs.Bmap.{ndirect, dbperidb}
use ops_class.Sfs.Bmap.Map.{nmapped, slot, block_of, Sane}
use ops_class.Sfs.Bmap.Frame.{mapped-same, mapped_far, Sane-same}
use ops_class.Sfs.Bmap.Outcome.{Grown, Got, Failed, too_big, untouched, spoilt}
use ops_class.Sfs.Bmap.Claim.{Got-found}

-- A step that `sfs_bmap` makes before it looks at the slot: the file `f'` maps as `f` does.
pub record Same {D : Type 0} (contents : D → Contents) (size : ℕ) (f f' : File D) : Type 0 where
  pub sane : Sane contents size f'
  pub nblocks : f'.fs.nblocks ≡ f.fs.nblocks
  pub used : (j : ℕ) → isset f.fs.freemap j ≡ true → isset f'.fs.freemap j ≡ true
  pub stored :
      (j : ℕ) → isset f.fs.freemap j ≡ true → contents f'.fs.device j ≡ contents f.fs.device j
  pub map : (k : ℕ) → block_of contents f' k ≡ block_of contents f k
  pub length_ : f'.sv.size ≡ f.sv.size

module _ {D : Type 0} {contents : D → Contents} {size : ℕ} {f f1 : File D}
    (step : Same contents size f f1) where
  Grown-after : (f' : File D) → Grown contents size f1 f' → Grown contents size f f'
  Grown-after f' g = record {
    nblocks = g.nblocks ∙ step.nblocks;
    used = λ j h. g.used j (step.used j h);
    stored = λ j h ne. g.stored j (step.used j h) ne ∙ step.stored j h;
    length_ = g.length_ ∙ step.length_;
  }

  Got-after :
      (fb : ℕ) (doalloc : Bool) (block : ℕ) (f' : File D)
      → Got contents size f1 fb doalloc block f'
      → Got contents size f fb doalloc block f'
  Got-after fb doalloc block f' g = record {
    sane = g.sane;
    grown = Grown-after f' g.grown;
    here = g.here;
    others = λ k ne. g.others k ne ∙ step.map k;
    kept = λ h. g.kept (go h) ∙ step.map fb;
    fresh = λ asked missing.
        let new = g.fresh asked (step.map fb ∙ missing) in (new.0, unused block new.1, new.2);
  }
    where
      go :
          (doalloc ≡ false) ⊎ (block_of contents f fb ≢ 0)
          → (doalloc ≡ false) ⊎ (block_of contents f1 fb ≢ 0)
      go (inl no_) = inl no_
      go (inr ne) = inr (λ z. ne (sym (step.map fb) ∙ z))

      unused : (j : ℕ) → isset f1.fs.freemap j ≡ false → isset f.fs.freemap j ≡ false
      unused j h = elim (Bool-cases (isset f.fs.freemap j)) [
        | inl yes_ ↦ absurd (cc (step.used j yes_, h))
        | inr no_ ↦ no_
      ]

  Failed-after :
      (fb : ℕ) (e : Errno) (f' : File D)
      → fb < nmapped
      → Failed contents size f1 fb e f'
      → Failed contents size f fb e f'
  Failed-after fb e f' small (too_big h same) = absurd (omega arith)
  Failed-after fb e f' small (untouched why sane' grown same) =
      untouched why sane' (Grown-after f' grown) (λ k. same k ∙ step.map k)
  Failed-after fb e f' small (spoilt ready' grown same) =
      spoilt ready' (Grown-after f' grown) (λ k h. same k h ∙ step.map k)

  pub Ensures-after :
      (fb : ℕ) (doalloc : Bool) {r : Run (File D) ℕ}
      → fb < nmapped
      → Ensures (Got contents size f1 fb doalloc) (Failed contents size f1 fb) r
      → Ensures (Got contents size f fb doalloc) (Failed contents size f fb) r
  Ensures-after fb doalloc small e =
      Run.mono e (Got-after fb doalloc) (λ e f'. Failed-after fb e f' small)

module _ {D : Type 0} {contents : D → Contents} {size : ℕ} where
  pub Grown-step : {f f' : File D} → Same contents size f f' → Grown contents size f f'
  Grown-step step = record {
    nblocks = step.nblocks;
    used = step.used;
    stored = λ j h ne. step.stored j h;
    length_ = step.length_;
  }

  -- Reading a block changes nothing of this.
  pub Same-read :
      (f : File D)
      → Sane contents size f
      → (s : Sfs D) → SameFs f.fs s
      → SameBlocks contents f.fs s
      → Same contents size f (record f { fs = s })
  Same-read f sane s same blocks = record {
    sane =
        Sane-same f (record f { fs = s }) sane (Ready-SameFs same sane.ready) sane.directs
          same.nblocks used refl map;
    nblocks = same.nblocks;
    used = used;
    stored = λ j h. blocks j;
    map = map;
    length_ = refl;
  }
    where
      used : (j : ℕ) → isset f.fs.freemap j ≡ true → isset s.freemap j ≡ true
      used j h = rw same.freemap h

      map : (k : ℕ) → block_of contents (record f { fs = s }) k ≡ block_of contents f k
      map k =
          mapped-same (contents f.fs.device) (contents s.device) f.sv f.sv k refl (λ h. refl)
            (λ ne. blocks f.sv.indirect)

  -- There is no indirect block, and none is wanted.
  pub no_block :
      (f : File D) (idoff : ℕ)
      → Sane contents size f
      → idoff < dbperidb
      → f.sv.indirect ≡ 0
      → Got contents size f (ndirect + idoff) false 0 f
  unfolding slot
  no_block f idoff sane in_block none_ =
      subst (λ block. Got contents size f (ndirect + idoff) false block f)
        (mapped_far (contents f.fs.device) f.sv (ndirect + idoff) (omega arith) (omega arith)
          ∙ rw none_)
        (Got-found f sane (ndirect + idoff) false (inl refl))
