-- ===== src/Sfs/Itrunc/Finish.antt =====
-- The last lines of `sfs_itrunc`: the cut file is sane.
use ops_class.Base.{
  ℕ, ◌%◌, ◌^◌, ◌+◌, ◌-◌, ◌<◌, ◌≡◌, ◌≢◌, refl, sym, ◌∙◌, true, false, ◌⊎◌, arith, inl, inr,
  Bool-cases, ap, subst, if◌then◌else◌, dec_lt,
}
use ops_class.Base.Run.{done}
use ops_class.Bitmap.{isset}
use ops_class.Sfs.Device.{Contents}
use ops_class.Sfs.State.{File}
use ops_class.Sfs.Bmap.{ndirect, dbperidb}
use ops_class.Sfs.Bmap.Map.{nmapped, mapped, block_of, Sane}
use ops_class.Sfs.Bmap.Frame.{mapped_beyond}
use ops_class.Sfs.Itrunc.{set_size}
use ops_class.Sfs.Itrunc.Pointers.{far_at, near_block, far_block}
use ops_class.Sfs.Itrunc.Cut.{past_end, Cut, Mid}
use ops_class.Sfs.Itrunc.Lock.{Holds, with_lock, unlock_big_lem, unlocked_Ready}

module _ {D : Type 0} {contents : D → Contents} {size : ℕ} {f : File D}
    (sane : Sane contents size f) (holds : Holds f.fs) (blocklen : ℕ) (f5 : File D)
    (mid : Mid contents size blocklen f f5) where
  dropped_map :
      (k : ℕ) → block_of contents f5 k ≡ (if past_end blocklen k then 0 else block_of contents f k)
  dropped_map k = elim (dec_lt k ndirect) [
    | yes near ↦
        near_block contents f5 k near
        ∙ mid.near k
        ∙ ground (arith, near_block contents f k near, near)
    | no far ↦ elim (dec_lt k nmapped) [
      | yes small ↦
          let j_small : k - ndirect < dbperidb = omega arith in
          let there : ndirect + (k - ndirect) ≡ k = omega arith in
          sym (ap (block_of contents f5) there)
          ∙ far_block contents f5 (k - ndirect) j_small
          ∙ mid.far (k - ndirect) j_small
          ∙ ground (
            arith,
            far_block contents f (k - ndirect) j_small,
            ap (block_of contents f) there,
            there,
          )
      | no big ↦
          mapped_beyond (contents f5.fs.device) f5.sv k (omega arith)
          ∙ ground (arith, mapped_beyond (contents f.fs.device) f.sv k (omega arith))
    ]
  ]

  -- A pointer that is left is one that was there, not past the end.
  left_over :
      (k : ℕ)
      → block_of contents f5 k ≢ 0
      → (past_end blocklen k ≡ false) × (block_of contents f5 k ≡ block_of contents f k)
  left_over k ne = elim (Bool-cases (past_end blocklen k)) [
    | inl past ↦ absurd (ne (dropped_map k ∙ rw past refl))
    | inr before ↦ (before, dropped_map k ∙ rw before refl)
  ]

  dropped_kept :
      (b : ℕ)
      → b ≢ f.sv.indirect
      → ((k : ℕ)
          → past_end blocklen k ≡ true
          → block_of contents f k ≢ 0
          → block_of contents f k ≢ b)
      → isset f5.fs.freemap b ≡ isset f.fs.freemap b
  dropped_kept b ne h =
      mid.kept b ne
        (λ k near p some_ e.
          let here = near_block contents f k near in
          h k (ground (arith, near, p)) (λ z. some_ (sym here ∙ z)) (here ∙ e))
        (λ j small p some_ e.
          let here = far_block contents f j small in
          h (ndirect + j) (ground (arith, p)) (λ z. some_ (sym here ∙ z)) (here ∙ e))

  dropped_gone :
      (k : ℕ)
      → past_end blocklen k ≡ true
      → block_of contents f k ≢ 0
      → isset f5.fs.freemap (block_of contents f k) ≡ false
  dropped_gone k past some_ = elim (dec_lt k ndirect) [
    | yes near ↦
        let here = near_block contents f k near in
        subst (λ b. isset f5.fs.freemap b ≡ false) (sym here)
          (mid.gone_near k near (ground (arith, near, past)) (λ z. some_ (here ∙ z)))
    | no far ↦ elim (dec_lt k nmapped) [
      | yes small ↦
          let j_small : k - ndirect < dbperidb = omega arith in
          let there : ndirect + (k - ndirect) ≡ k = omega arith in
          let here =
            sym (ap (block_of contents f) there) ∙ far_block contents f (k - ndirect) j_small in
          subst (λ b. isset f5.fs.freemap b ≡ false) (sym here)
            (mid.gone_far (k - ndirect) j_small (ground (arith, past, there))
              (λ z. some_ (here ∙ z)))
      | no big ↦ absurd (some_ (mapped_beyond (contents f.fs.device) f.sv k (omega arith)))
    ]
  ]

  left_used :
      (k : ℕ)
      → block_of contents f5 k ≢ 0
      → (block_of contents f5 k < f5.fs.nblocks)
        × (isset f5.fs.freemap (block_of contents f5 k) ≡ true)
  left_used k ne =
      let (before, same) = left_over k ne in
      let some_ : block_of contents f k ≢ 0 = λ z. ne (same ∙ z) in
      let (inside, used) = sane.pointers k some_ in
      (
        rw (same, mid.nblocks) inside,
        rw same (
            dropped_kept (block_of contents f k) (sane.apart_index k some_) (λ l past some_l e.
              cc (ap (past_end blocklen) (sane.apart l k some_l e), past, before))
            ∙ used),
      )

  index_left :
      f5.sv.indirect ≢ 0
      → (f5.sv.indirect ≡ f.sv.indirect)
        × (f5.sv.indirect < f5.fs.nblocks)
        × (isset f5.fs.freemap f5.sv.indirect ≡ true)
  index_left ne = go mid.index
    where
      go :
          ((f5.sv.indirect ≡ f.sv.indirect)
              × (isset f5.fs.freemap f.sv.indirect ≡ isset f.fs.freemap f.sv.indirect))
            ⊎ ((f5.sv.indirect ≡ 0)
                × (isset f5.fs.freemap f.sv.indirect ≡ false)
                × ((j : ℕ) → j < dbperidb → far_at contents f5 j ≡ 0))
          → (f5.sv.indirect ≡ f.sv.indirect)
            × (f5.sv.indirect < f5.fs.nblocks)
            × (isset f5.fs.freemap f5.sv.indirect ≡ true)
      go (inl (e, used)) =
          let old = sane.index (λ z. ne (e ∙ z)) in
          (e, rw (e, mid.nblocks) old.0, rw e (used ∙ old.1))
      go (inr (none_, free, zero_)) = absurd (ne none_)

  abbrev finished : ℕ → File D
  finished len =
      with_lock f.fs.biglock
        (record f5 { sv = record (f5.sv) { size = len % 2 ^ 32; dirty = true } })

  pub set_size_lem : (len : ℕ) → set_size len f5 ≡ done tt (finished len)
  unfolding set_size
  set_size_lem len =
      unlock_big_lem f holds
        (record f5 { sv = record (f5.sv) { size = len % 2 ^ 32; dirty = true } }) mid.lock mid.depth
        mid.curthread

  finished-Sane : (len : ℕ) → Sane contents size (finished len)
  unfolding mapped
  finished-Sane len = record {
    ready = unlocked_Ready f holds f5 mid.lock mid.depth mid.curthread mid.ready;
    directs = mid.directs;
    pointers = left_used;
    index = λ ne. let (e, inside, used) = index_left ne in (inside, used);
    apart = λ k l ne e.
        let (before, same) = left_over k ne in
        let (before', same') = left_over l (λ z. ne (e ∙ z)) in
        sane.apart k l (λ z. ne (same ∙ z)) (sym same ∙ e ∙ same');
    apart_index = λ k ne e.
        let (before, same) = left_over k ne in
        let index_some : f5.sv.indirect ≢ 0 = λ z. ne (e ∙ z) in
        sane.apart_index k (λ z. ne (same ∙ z)) (sym same ∙ e ∙ (index_left index_some).0);
  }

  pub finished-Cut : (len : ℕ) → Cut contents size blocklen f len (finished len)
  unfolding mapped
  finished-Cut len = record {
    sane = finished-Sane len;
    biglock = refl;
    nblocks = mid.nblocks;
    now_size = refl;
    dirty = refl;
    map = dropped_map;
    gone = dropped_gone;
    kept = dropped_kept;
    index = elim mid.index [
      | inl same ↦ inl same
      | inr (none_, free, zero_) ↦ inr (none_, free, λ j h. far_block contents f5 j h ∙ zero_ j h)
    ];
    stored = mid.stored;
  }
