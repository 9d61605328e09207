-- ===== src/Sfs/Itrunc/Freed.antt =====
-- A run over pointers that frees those past an end, as both loops of `sfs_itrunc` do.
use ops_class.Base.{
  ℕ, ◌+◌, ◌<◌, ◌≡◌, ◌≢◌, refl, ◌∙◌, Bool, true, false, ◌&&◌, not, ◌==◌, arith, inl, inr, ap, subst,
  dec_lt,
}
use ops_class.Base.Run.{Run, done, panicked, Checked, value, panic}
use ops_class.Bitmap
use ops_class.Bitmap.{Bitmap, isset}
use ops_class.Bitmap.Mark.{Turned, unmark-Turned}
use ops_class.Sfs.State.{Sfs}
use ops_class.Sfs.Balloc.{bfree}
use ops_class.Sfs.Balloc.Laws.{Ready}

-- From `s0` to `s`, the blocks `ptr k` with `k < i` past the end have been freed, and no other.
module _ {D : Type 0} (size : ℕ) (ptr : ℕ → ℕ) (past : ℕ → Bool) (s0 : Sfs D) where
  pub record Freed (i : ℕ) (s : Sfs D) : Type 0 where
    pub device : s.device ≡ s0.device
    pub nblocks : s.nblocks ≡ s0.nblocks
    pub biglock : s.biglock ≡ s0.biglock
    pub curthread : s.curthread ≡ s0.curthread
    pub ready : Ready size s
    pub gone : (k : ℕ) → k < i → past k ≡ true → ptr k ≢ 0 → isset s.freemap (ptr k) ≡ false
    pub kept :
        (b : ℕ)
        → ((k : ℕ) → k < i → past k ≡ true → ptr k ≢ 0 → ptr k ≢ b)
        → isset s.freemap b ≡ isset s0.freemap b

  pub Freed-start : Ready size s0 → Freed 0 s0
  Freed-start ready = record {
    device = refl;
    nblocks = refl;
    biglock = refl;
    curthread = refl;
    ready = ready;
    gone = λ k h. absurd (omega arith);
    kept = λ b h. refl;
  }

  pub Freed-skip :
      {i : ℕ} {s : Sfs D} → Freed i s → (past i && not (ptr i == 0)) ≡ false → Freed (i + 1) s
  Freed-skip {i} {s} fr skipped = record {
    device = fr.device;
    nblocks = fr.nblocks;
    biglock = fr.biglock;
    curthread = fr.curthread;
    ready = fr.ready;
    gone = λ k h p ne. elim (dec_lt k i) [
      | yes old ↦ fr.gone k old p ne
      | no last ↦
          let e : k ≡ i = omega arith in
          absurd (here (subst (λ j. past j ≡ true) e p) (subst (λ j. ptr j ≢ 0) e ne))
    ];
    kept = λ b h. fr.kept b (λ k small. h k (omega arith));
  }
    where
      here : past i ≡ true → ptr i ≢ 0 → ⊥
      here p ne = ground (arith, skipped, p, ne)

  -- `sfs_bfree` of the next pointer, which is in use.
  module _ {i : ℕ} {s : Sfs D} (fr : Freed i s) (p : past i ≡ true) (some_ : ptr i ≢ 0)
      (inside : ptr i < s0.nblocks) (used : isset s0.freemap (ptr i) ≡ true)
      (apart : (k : ℕ) → k < i → ptr k ≢ 0 → ptr k ≢ ptr i) where
    still : isset s.freemap (ptr i) ≡ true
    still = fr.kept (ptr i) (λ k h p' ne. apart k h ne) ∙ used

    Freed-next :
        (m : Bitmap)
        → Turned s.freemap (ptr i) false (value m)
        → Freed (i + 1) (record s { freemap = m; freemapdirty = true })
    Freed-next m (in_, was, bits, valid, n) = record {
      device = fr.device;
      nblocks = fr.nblocks;
      biglock = fr.biglock;
      curthread = fr.curthread;
      ready = record {
        held = fr.ready.held;
        map_valid = valid;
        span = omega (arith, fr.ready.span, n);
        on_disk = fr.ready.on_disk;
        tail = λ j out h.
            ground (arith, bits j, fr.ready.tail j out (omega (arith, n)), fr.nblocks, inside);
        super = ground (arith, bits 0, fr.ready.super, some_);
      };
      gone = λ k h p' ne. elim (dec_lt k i) [
        | yes old ↦ ground (arith, bits (ptr k), fr.gone k old p' ne)
        | no last ↦ let e : ptr k ≡ ptr i = ap ptr (omega arith) in ground (arith, bits (ptr k), e)
      ];
      kept = λ b h.
          ground
            (arith, bits b, h i (omega arith) p some_, fr.kept b (λ k small. h k (omega arith)));
    }

    pub Freed-free : (s' : Sfs D) × (bfree (ptr i) s ≡ done tt s') × Freed (i + 1) s'
    unfolding bfree
    Freed-free =
        go (Bitmap.unmark s.freemap (ptr i)) refl (unmark-Turned (ptr i) fr.ready.map_valid)
      where
        go :
            (r : Checked Bitmap)
            → Bitmap.unmark s.freemap (ptr i) ≡ r
            → Turned s.freemap (ptr i) false r
            → (s' : Sfs D) × (bfree (ptr i) s ≡ done tt s') × Freed (i + 1) s'
        go (value m) e turned = (
          record s { freemap = m; freemapdirty = true },
          ap {A = Checked Bitmap} {B = Run (Sfs D) (Unit {0})}
              (λ r. elim r [
                | value map ↦ done tt (record s { freemap = map; freemapdirty = true })
                | panic ↦ panicked
              ])
              e,
          Freed-next m turned,
        )
        go panic e (inl out) = absurd (omega (arith, fr.ready.span, fr.nblocks, inside))
        go panic e (inr clear) = absurd (cc (clear, still))
