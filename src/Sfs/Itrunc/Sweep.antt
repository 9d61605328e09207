-- ===== src/Sfs/Itrunc/Sweep.antt =====
-- The loop over the words of the indirect block.
use ops_class.Base.{
  ℕ, zero, suc, ◌+◌, ◌<◌, ◌≡◌, ◌≢◌, refl, ◌∙◌, Bool, true, false, ◌&&◌, ◌||◌, not, ◌==◌, arith, inl,
  inr, Bool-cases, ==→ne, ==→eq, ap, subst, if◌then◌else◌, get_or, set, length, length-set,
  get_or-set, List, ltb,
}
use ops_class.Base.Run.{done}
use ops_class.Bitmap.{isset}
use ops_class.Sfs.State.{Sfs, File}
use ops_class.Sfs.Bmap.{ndirect, dbperidb}
use ops_class.Sfs.Itrunc.{Slots, drop_slots}
use ops_class.Sfs.Itrunc.Freed.{Freed, Freed-skip, Freed-free}

module _ {D : Type 0} (size : ℕ) (f0 : File D) (blocklen : ℕ) (ws : List ℕ) where
  abbrev pub slot_at : ℕ → ℕ
  slot_at k = get_or ws k 0

  abbrev pub slot_past : ℕ → Bool
  slot_past k = ltb blocklen (ndirect + k)

  -- After the rounds below `i`: the two flags say if a slot is left, and if one was taken out.
  pub record Swept (i : ℕ) (f : File D) (acc : Slots) : Type 0 where
    pub freed : Freed size slot_at slot_past f0.fs i f.fs
    pub inode : f.sv ≡ f0.sv
    pub sized : length acc.idbuf ≡ length ws
    pub now : (k : ℕ) → get_or acc.idbuf k 0 ≡ (if ltb k i && slot_past k then 0 else slot_at k)
    pub none_left : acc.hasnonzero ≡ false → (k : ℕ) → k < i → get_or acc.idbuf k 0 ≡ 0
    pub some_left :
        acc.hasnonzero ≡ true → (k : ℕ) × (k < i) × (slot_at k ≢ 0) × (slot_past k ≡ false)
    pub clean : acc.iddirty ≡ false → (k : ℕ) → get_or acc.idbuf k 0 ≡ slot_at k

  module _ (full : length ws ≡ dbperidb)
      (used : (k : ℕ)
        → k < dbperidb
        → slot_at k ≢ 0
        → (slot_at k < f0.fs.nblocks) × (isset f0.fs.freemap (slot_at k) ≡ true))
      (apart : (k l : ℕ) → k < l → l < dbperidb → slot_at k ≢ 0 → slot_at k ≢ slot_at l) where
    here : {i : ℕ} {f : File D} {acc : Slots} → Swept i f acc → get_or acc.idbuf i 0 ≡ slot_at i
    here {i} sw = ground (arith, sw.now i)

    Swept-next :
        {i : ℕ} {f : File D} {acc : Slots} (s : Sfs D)
        → i < dbperidb
        → Swept i f acc
        → slot_past i ≡ true
        → Freed size slot_at slot_past f0.fs (i + 1) s
        → Swept
            (i + 1)
            (record f { fs = s })
            (record acc { idbuf = set acc.idbuf i 0; iddirty = true })
    Swept-next {i} {f} {acc} s small sw past fr = record {
      freed = fr;
      inode = sw.inode;
      sized = length-set acc.idbuf i 0 ∙ sw.sized;
      now = λ k. ground (arith, get_or-set acc.idbuf i k 0 0, sw.sized, full, sw.now k, past);
      none_left = λ h k below.
          ground (arith, get_or-set acc.idbuf i k 0 0, sw.sized, full, sw.none_left h k);
      some_left = λ h. let (k, below, ne, kept) = sw.some_left h in (k, omega arith, ne, kept);
      clean = λ h. absurd (cc);
    }

    kept_next :
        {i : ℕ} {f : File D} {acc : Slots}
        → Swept i f acc
        → (ltb blocklen (ndirect + i) && not (slot_at i == 0)) ≡ false
        → Swept (i + 1) f (record acc { hasnonzero = acc.hasnonzero || not (slot_at i == 0) })
    kept_next {i} {f} {acc} sw keep = record {
      freed = Freed-skip size slot_at slot_past f0.fs sw.freed keep;
      inode = sw.inode;
      sized = sw.sized;
      now = λ k. elim (Bool-cases (k == i)) [
        | inl is ↦
            let e = ==→eq k i is in
            let e' : slot_at k ≡ slot_at i = ap slot_at e in ground (arith, sw.now k, keep, e, e')
        | inr other ↦ ground (arith, sw.now k, ==→ne k i other)
      ];
      none_left = λ h k below. elim (Bool-cases (k == i)) [
        | inl is ↦
            let e = ==→eq k i is in
            let e' : get_or acc.idbuf k 0 ≡ get_or acc.idbuf i 0 =
              ap (λ j. get_or acc.idbuf j 0) e in
            ground (arith, here sw, h, e')
        | inr other ↦
            ground (arith, sw.none_left, sw.none_left (ground arith) k, h, ==→ne k i other)
      ];
      some_left = λ h. elim (Bool-cases acc.hasnonzero) [
        | inl before ↦ let (k, below, ne, kept) = sw.some_left before in (k, omega arith, ne, kept)
        | inr none_ ↦ (i, omega arith, ground (arith, h, none_), ground (arith, h, none_, keep))
      ];
      clean = sw.clean;
    }

    -- The loop ends without a panic, with every slot past the end freed and taken out.
    pub drop_slots_lem :
        (n i : ℕ) (f : File D) (acc : Slots)
        → i + n ≡ dbperidb
        → Swept i f acc
        → (f' : File D) × (acc' : Slots) × (drop_slots n i blocklen acc f ≡ done acc' f')
          × Swept dbperidb f' acc'
    unfolding drop_slots
    drop_slots_lem zero i f acc e sw = (f, acc, refl, subst (λ j. Swept j f acc) (omega arith) sw)
    drop_slots_lem (suc n) i f acc e sw =
        rw (here sw) (elim (Bool-cases (ltb blocklen (ndirect + i) && not (slot_at i == 0))) [
          | inl drop ↦
              let past : ltb blocklen (ndirect + i) ≡ true = ground (arith, drop) in
              let some_ : slot_at i ≢ 0 = ground (arith, drop) in
              let small : i < dbperidb = omega arith in
              let (s, freed, fr) =
                Freed-free size slot_at slot_past f0.fs sw.freed past some_ (used i small some_).0
                  (used i small some_).1 (λ k h. apart k i h small) in
              let (f', acc', run, end) =
                drop_slots_lem n (i + 1) _ _ (omega arith) (Swept-next s small sw past fr) in
              (f', acc', rw (drop, freed) run, end)
          | inr keep ↦ rw keep (drop_slots_lem n (i + 1) f _ (omega arith) (kept_next sw keep))
        ])
