-- ===== src/Bitmap/Alloc.antt =====
-- `bitmap_alloc`, and the bit that it hands out.
use ops_class.Base.{
  ℕ, zero, suc, ◌+◌, ◌-◌, ◌*◌, ◌≤◌, ◌<◌, ◌≡◌, ◌≢◌, refl, inl, inr, true, false, arith, ◌==◌, ltb,
  if◌then◌else◌, Bool-cases, ==→eq, ==→ne, length, lt→ltb, subst, sym, ap₂, dec_lt, ◌∙◌,
}
use ops_class.Base.Bits.{bit_set, set_bit-lt, bit_set_full, full_of_bits}
use ops_class.Base.Run.{Run, done, fail, panicked, blocked, enospc}
use ops_class.Bitmap.{Bitmap, words_of, word, or_word, isset, alloc_word, alloc_from, alloc}
use ops_class.Bitmap.Valid.{IsValid, IsValid-set, isset-or_word}

-- Every bit below `i` is in use.
abbrev pub FullBelow : Bitmap → ℕ → Type 0
FullBelow b i = (j : ℕ) → j < i → isset b j ≡ true

-- What a call of `bitmap_alloc` on `b` comes to.
abbrev pub Allocated : Bitmap → Run Bitmap ℕ → Type 0
Allocated b (done i b') =
    (i < b.nbits)
    × (isset b i ≡ false)
    × FullBelow b i
    × ((j : ℕ) → isset b' j ≡ (if i == j then true else isset b j))
    × IsValid b'
    × (b'.nbits ≡ b.nbits)
Allocated b (fail e b') = (e ≡ enospc) × (b' ≡ b) × FullBelow b b.nbits
Allocated b panicked = ⊥
Allocated b blocked = ⊥

module _ {b : Bitmap} (v : IsValid b) where
  FullBelow-suc : (i : ℕ) → FullBelow b i → isset b i ≡ true → FullBelow b (i + 1)
  FullBelow-suc i full here j h = elim (Bool-cases (j == i)) [
    | inl e ↦ subst (λ k. isset b k ≡ true) (sym (==→eq j i e)) here
    | inr ne ↦ full j (omega (arith, ==→ne j i ne))
  ]

  isset-word :
      (ix offset : ℕ) → offset < 8 → isset b (ix * 8 + offset) ≡ bit_set (word b.v ix) offset
  unfolding isset
  isset-word ix offset h = ap₂ (λ k o. bit_set (word b.v k) o) (omega arith) (omega arith)

  FullBelow-word : (ix : ℕ) → FullBelow b (ix * 8) → word b.v ix ≡ 255 → FullBelow b ((ix + 1) * 8)
  FullBelow-word ix full e j h = elim (dec_lt j (ix * 8)) [
    | yes p ↦ full j p
    | no p ↦
        let at : ix * 8 + (j - ix * 8) ≡ j = omega arith in
        subst (λ k. isset b k ≡ true) at
          (isset-word ix (j - ix * 8) (omega arith)
            ∙ bit_set_full (word b.v ix) (j - ix * 8) e (omega arith))
  ]

  alloc_found :
      (ix offset : ℕ)
      → ix < length b.v
      → offset < 8
      → FullBelow b (ix * 8 + offset)
      → bit_set (word b.v ix) offset ≡ false
      → Allocated b (
          if ltb (ix * 8 + offset) b.nbits
          then done (ix * 8 + offset) (record b { v = or_word b.v ix offset })
          else panicked)
  alloc_found ix offset inside small full clear =
      rw (lt→ltb (ix * 8 + offset) b.nbits bound) (
        bound,
        free,
        full,
        turned,
        IsValid-set ix _ v (set_bit-lt _ _ (v.bytes ix) small) over,
        refl,
      )
    where
      free : isset b (ix * 8 + offset) ≡ false
      free = isset-word ix offset small ∙ clear

      bound : ix * 8 + offset < b.nbits
      bound = ground (arith, free, v.over (ix * 8 + offset))

      turned :
          (j : ℕ)
          → isset (record b { v = or_word b.v ix offset }) j
            ≡ (if ix * 8 + offset == j then true else isset b j)
      turned = isset-or_word b ix inside offset small (v.bytes ix)

      over :
          (i : ℕ)
          → b.nbits ≤ i
          → i < 8 * length b.v
          → isset (record b { v = or_word b.v ix offset }) i ≡ true
      over i out h = ground (arith, turned i, v.over i out h)

  alloc_word-Allocated :
      (n ix offset : ℕ)
      → ix < length b.v
      → offset + n ≡ 8
      → FullBelow b (ix * 8 + offset)
      → word b.v ix ≢ 255
      → Allocated b (alloc_word n ix offset b)
  unfolding alloc_word
  alloc_word-Allocated zero ix offset inside e full ne = ne (
      full_of_bits (word b.v ix) (v.bytes ix)
        (λ j h. sym (isset-word ix j h) ∙ full (ix * 8 + j) (omega arith)))
  alloc_word-Allocated (suc n) ix offset inside e full ne =
      elim (Bool-cases (bit_set (word b.v ix) offset)) [
        | inl used ↦ rw used (
            alloc_word-Allocated n ix (offset + 1) inside (omega arith)
              (subst (FullBelow b) (omega arith)
                (FullBelow-suc (ix * 8 + offset) full (isset-word ix offset (omega arith) ∙ used)))
              ne)
        | inr clear ↦ rw clear (alloc_found ix offset inside (omega arith) full clear)
      ]

  alloc_from-Allocated :
      (n ix : ℕ) → ix + n ≡ length b.v → FullBelow b (ix * 8) → Allocated b (alloc_from n ix b)
  unfolding alloc_from
  alloc_from-Allocated zero ix e full = (refl, refl, λ j h. full j (omega (arith, v.sized)))
  alloc_from-Allocated (suc n) ix e full = elim (Bool-cases (word b.v ix == 255)) [
    | inl is ↦
        rw is
          (alloc_from-Allocated n (ix + 1) (omega arith) (FullBelow-word ix full (==→eq _ _ is)))
    | inr not_full ↦ rw not_full (
        alloc_word-Allocated 8 ix 0 (omega arith) refl (subst (FullBelow b) (omega arith) full)
          (==→ne _ _ not_full))
  ]

-- On a valid bitmap `bitmap_alloc` never panics. If it returns 0, the index it hands back is in
-- range, was clear, and is the lowest clear bit; exactly that bit is set afterwards, and the bitmap
-- is valid and as long as before. If it returns an error, that is ENOSPC, nothing has changed, and
-- every bit was in use.
pub alloc-Allocated : {b : Bitmap} → IsValid b → Allocated b (alloc b)
unfolding alloc
alloc-Allocated {b} v =
    alloc_from-Allocated v (words_of b.nbits) 0 (omega (arith, v.sized, v.small))
      (λ j h. absurd (omega arith))
