-- ===== src/Sfs/Bmap/Direct.antt =====
-- `sfs_bmap` on the inode's own pointers.
use ops_class.Base.{
  ℕ, ◌<◌, ◌≡◌, ◌≢◌, refl, sym, ◌∙◌, true, false, ◌==◌, get_or, length, arith, inl, inr, Bool,
  Bool-cases, set, subst, get_or-set, length-set, ◌⊎◌, ◌&&◌, ne→==, ap,
}
use ops_class.Base.Run.{Ensures, returns, done}
use ops_class.Bitmap.{isset}
use ops_class.Sfs.Device.{Device, Contents, IsDisk}
use ops_class.Sfs.State.{Sfs, File, bind_fs}
use ops_class.Sfs.Balloc.Laws.{Ready, Claimed, balloc-Balloc}
use ops_class.Sfs.Bmap.{ndirect, set_direct, bmap_direct}
use ops_class.Sfs.Bmap.Map.{block_of, Sane}
use ops_class.Sfs.Bmap.Frame.{mapped-same, mapped_near, Sane-block}
use ops_class.Sfs.Bmap.Outcome.{Got, Failed}
use ops_class.Sfs.Bmap.Claim.{
  hand_back-done, hand_back_found, index_stored, claimed_used, claimed_now, claimed_ne_zero,
  claimed_Grown, Failed-untouched,
}

-- The pointer of block `fb` in the inode becomes `b`.
module _ {D : Type 0} {contents : D → Contents} {size : ℕ} (f : File D)
    (sane : Sane contents size f) (b : ℕ) (s : Sfs D) (c : Claimed contents f.fs b s)
    (ready : Ready size s) (fb : ℕ) (near : fb < ndirect)
    (missing : block_of contents f fb ≡ 0) where
  with_direct : File D
  with_direct = record {
    fs = s;
    sv = record (f.sv) { direct = set f.sv.direct fb b; dirty = true };
  }

  Got-direct : (doalloc : Bool) → doalloc ≡ true → Got contents size f fb doalloc b with_direct
  unfolding with_direct
  Got-direct doalloc asked = record {
    sane =
        Sane-block f with_direct sane ready directs c.nblocks (claimed_used f sane b s c) b c.inside
          c.free (claimed_now f sane b s c) fb refl here others;
    grown = claimed_Grown f sane b s c with_direct refl refl;
    here = here;
    others = others;
    kept = λ h. absurd (go h);
    fresh = λ _ _. (claimed_ne_zero f sane b s c, c.free, ground (arith, c.stored b));
  }
    where
      go : (doalloc ≡ false) ⊎ (block_of contents f fb ≢ 0) → ⊥
      go (inl no_) = cc
      go (inr ne) = ne missing

      directs : length (set f.sv.direct fb b) ≡ ndirect
      directs = length-set f.sv.direct fb b ∙ sane.directs

      here : block_of contents with_direct fb ≡ b
      here =
          mapped_near (contents s.device) with_direct.sv fb near
          ∙ ground (arith, get_or-set f.sv.direct fb fb b 0, sane.directs)

      others : (k : ℕ) → k ≢ fb → block_of contents with_direct k ≡ block_of contents f k
      others k ne =
          mapped-same (contents f.fs.device) (contents s.device) f.sv with_direct.sv k refl
            (λ h. ground (arith, get_or-set f.sv.direct fb k b 0, sane.directs, ne))
            (index_stored f sane b s c)

module _ {D : Type 0} {dev : Device D} {contents : D → Contents} {size : ℕ}
    (disk : IsDisk dev contents size) {f : File D} (sane : Sane contents size f) where
  -- The path of `sfs_bmap` through the inode's own pointers.
  pub bmap_direct_lem :
      (fb : ℕ) (doalloc : Bool)
      → fb < ndirect
      → Ensures
          (Got contents size f fb doalloc)
          (Failed contents size f fb)
          (bmap_direct dev fb doalloc f)
  unfolding bmap_direct set_direct with_direct
  bmap_direct_lem fb doalloc near = elim (Bool-cases (get_or f.sv.direct fb 0 == 0 && doalloc)) [
    | inl want ↦ rw want (
        bind_fs f _ (balloc-Balloc disk sane.ready)
          (λ b s (c, ready).
            let missing : block_of contents f fb ≡ 0 = at ∙ ground (arith, want) in
            let got =
              Got-direct f sane b s c ready fb near missing doalloc (ground (arith, want)) in
            subst (Ensures (Got contents size f fb doalloc) (Failed contents size f fb))
              (sym (
                hand_back-done b (with_direct f sane b s c ready fb near missing)
                  (λ ne. (rw c.nblocks c.inside, claimed_now f sane b s c))))
              (returns got))
          (λ e s (why, kept, ready). Failed-untouched f sane fb e s why kept ready))
    | inr found ↦ rw found (hand_back_found f sane fb doalloc (get_or f.sv.direct fb 0) at found)
  ]
    where
      at : block_of contents f fb ≡ get_or f.sv.direct fb 0
      at = mapped_near (contents f.fs.device) f.sv fb near

module _ {D : Type 0} (dev : Device D) {contents : D → Contents} {size : ℕ} {f : File D}
    (sane : Sane contents size f) where
  -- A pointer that is there is handed back, and nothing changes.
  pub bmap_direct-found :
      (fb : ℕ) (doalloc : Bool)
      → fb < ndirect
      → block_of contents f fb ≢ 0
      → bmap_direct dev fb doalloc f ≡ done (block_of contents f fb) f
  unfolding bmap_direct
  bmap_direct-found fb doalloc near some_block =
      let at = mapped_near (contents f.fs.device) f.sv fb near in
      let pointer = get_or f.sv.direct fb 0 in
      let found = hand_back-done pointer f (λ _.
        let (low, used) = sane.pointers fb some_block in
        (subst (λ b. b < f.fs.nblocks) at low, subst (λ b. isset f.fs.freemap b ≡ true) at used)) in
      let some_pointer = ne→== pointer 0 (λ z. some_block (at ∙ z)) in
      rw some_pointer (rw some_pointer at found) ∙ ap {A = ℕ} (λ b. done b f) (sym at)
