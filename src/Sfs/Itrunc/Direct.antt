-- ===== src/Sfs/Itrunc/Direct.antt =====
-- The loop over the direct blocks.
use ops_class.Base.{
  ℕ, zero, suc, ◌+◌, ◌<◌, ◌≡◌, ◌≢◌, refl, ◌∙◌, Bool, true, false, ◌&&◌, not, ◌==◌, leb, arith,
  Bool-cases, ==→ne, ap, if◌then◌else◌, get_or, set, length, inl, inr, length-set, get_or-set,
  subst, ==→eq, ltb,
}
use ops_class.Base.Run.{done}
use ops_class.Bitmap.{isset}
use ops_class.Sfs.State.{Sfs, File}
use ops_class.Sfs.Bmap.{ndirect, set_direct}
use ops_class.Sfs.Itrunc.{drop_direct}
use ops_class.Sfs.Itrunc.Freed.{Freed, Freed-skip, Freed-free}

module _ {D : Type 0} (size : ℕ) (f0 : File D) (blocklen : ℕ) where
  abbrev pub direct_at : ℕ → ℕ
  direct_at k = get_or f0.sv.direct k 0

  abbrev pub direct_past : ℕ → Bool
  direct_past k = leb blocklen k

  -- After the rounds below `i`.
  pub record Dropped (i : ℕ) (f : File D) : Type 0 where
    pub freed : Freed size direct_at direct_past f0.fs i f.fs
    pub directs : length f.sv.direct ≡ ndirect
    pub indirect : f.sv.indirect ≡ f0.sv.indirect
    pub same_size : f.sv.size ≡ f0.sv.size
    pub now :
        (k : ℕ) → get_or f.sv.direct k 0 ≡ (if ltb k i && direct_past k then 0 else direct_at k)

  module _
      (used : (k : ℕ)
        → k < ndirect
        → direct_at k ≢ 0
        → (direct_at k < f0.fs.nblocks) × (isset f0.fs.freemap (direct_at k) ≡ true))
      (apart : (k l : ℕ) → k < l → l < ndirect → direct_at k ≢ 0 → direct_at k ≢ direct_at l) where
    here : {i : ℕ} {f : File D} → Dropped i f → get_or f.sv.direct i 0 ≡ direct_at i
    here {i} dr = ground (arith, dr.now i)

    Dropped-next :
        {i : ℕ} {f : File D} (s : Sfs D)
        → i < ndirect
        → Dropped i f
        → direct_past i ≡ true
        → Freed size direct_at direct_past f0.fs (i + 1) s
        → Dropped
            (i + 1)
            (record { fs = s; sv = record (f.sv) { direct = set f.sv.direct i 0; dirty = true } })
    Dropped-next {i} {f} s small dr past fr = record {
      freed = fr;
      directs = length-set f.sv.direct i 0 ∙ dr.directs;
      indirect = dr.indirect;
      same_size = dr.same_size;
      now = λ k. ground (arith, get_or-set f.sv.direct i k 0 0, dr.directs, dr.now k, past);
    }

    kept_next :
        {i : ℕ} {f : File D}
        → Dropped i f
        → (leb blocklen i && not (direct_at i == 0)) ≡ false
        → Dropped (i + 1) f
    kept_next {i} {f} dr keep = record {
      freed = Freed-skip size direct_at direct_past f0.fs dr.freed keep;
      directs = dr.directs;
      indirect = dr.indirect;
      same_size = dr.same_size;
      now = λ k. elim (Bool-cases (k == i)) [
        | inl is ↦
            let e = ==→eq k i is in
            let e' : direct_at k ≡ direct_at i = ap direct_at e in
            ground (arith, dr.now k, keep, e, e')
        | inr other ↦ ground (arith, dr.now k, ==→ne k i other)
      ];
    }

    -- The loop ends without a panic, with every direct block past the end freed and taken out.
    pub drop_direct_lem :
        (n i : ℕ) (f : File D)
        → i + n ≡ ndirect
        → Dropped i f
        → (f' : File D) × (drop_direct n i blocklen f ≡ done tt f') × Dropped ndirect f'
    unfolding drop_direct set_direct
    drop_direct_lem zero i f e dr = (f, refl, subst (λ j. Dropped j f) (omega arith) dr)
    drop_direct_lem (suc n) i f e dr =
        rw (here dr) (elim (Bool-cases (leb blocklen i && not (direct_at i == 0))) [
          | inl drop ↦
              let past : leb blocklen i ≡ true = ground (arith, drop) in
              let some_ : direct_at i ≢ 0 = ground (arith, drop) in
              let small : i < ndirect = omega arith in
              let (s, freed, fr) =
                Freed-free size direct_at direct_past f0.fs dr.freed past some_
                  (used i small some_).0 (used i small some_).1 (λ k h. apart k i h small) in
              let (f', run, end) =
                drop_direct_lem n (i + 1) _ (omega arith) (Dropped-next s small dr past fr) in
              (f', rw (drop, freed) run, end)
          | inr keep ↦ rw keep (drop_direct_lem n (i + 1) f (omega arith) (kept_next dr keep))
        ])
