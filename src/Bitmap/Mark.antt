-- ===== src/Bitmap/Mark.antt =====
-- `bitmap_mark` and `bitmap_unmark`.
use ops_class.Base.{
  ℕ, ◌+◌, ◌*◌, ◌/◌, ◌%◌, ◌≤◌, ◌<◌, ◌≡◌, refl, inl, inr, Bool, true, false, arith, ◌==◌,
  if◌then◌else◌, Bool-cases, length, lt→ltb, le→ltb, not, dec_lt, set, ◌⊎◌,
}
use ops_class.Base.Bits.{bit_set, set_bit-lt, clear_bit-lt, clear_bit}
use ops_class.Base.Run.{Checked, value, panic}
use ops_class.Bitmap.{Bitmap, word, or_word, isset, mark, unmark}
use ops_class.Bitmap.Valid.{IsValid, IsValid-set, isset-or_word, isset-clear_word}

-- A call that turned bit `i` to `bit`, where it stood at the opposite; a panic elsewhere.
abbrev pub Turned : Bitmap → ℕ → Bool → Checked Bitmap → Type 0
Turned b i bit (value b') =
    (i < b.nbits)
    × (isset b i ≡ not bit)
    × ((j : ℕ) → isset b' j ≡ (if i == j then bit else isset b j))
    × IsValid b'
    × (b'.nbits ≡ b.nbits)
Turned b i bit panic = (b.nbits ≤ i) ⊎ (isset b i ≡ bit)

module _ {b : Bitmap} (i : ℕ) (v : IsValid b) where
  module _ (inside : i < b.nbits) where
    here : i / 8 * 8 + i % 8 ≡ i
    here = omega arith

    word_inside : i / 8 < length b.v
    word_inside = omega (arith, v.sized)

    marked :
        isset b i ≡ false → Turned b i true (value (record b { v = or_word b.v (i / 8) (i % 8) }))
    marked clear = (
      inside,
      clear,
      bits,
      IsValid-set (i / 8) _ v (set_bit-lt _ _ (v.bytes (i / 8)) (omega arith))
          (λ j out h. ground (arith, bits j, v.over j out h)),
      refl,
    )
      where
        bits :
            (j : ℕ)
            → isset (record b { v = or_word b.v (i / 8) (i % 8) }) j
              ≡ (if i == j then true else isset b j)
        bits j = ground (
          arith,
          here,
          isset-or_word b (i / 8) word_inside (i % 8) (omega arith) (v.bytes (i / 8)) j,
        )

    unmarked :
        isset b i ≡ true
        → Turned b i false
            (value (record b { v = set b.v (i / 8) (clear_bit (word b.v (i / 8)) (i % 8)) }))
    unmarked used = (
      inside,
      used,
      bits,
      IsValid-set (i / 8) _ v (clear_bit-lt _ _ (v.bytes (i / 8)) (omega arith))
          (λ j out h. ground (arith, bits j, v.over j out h)),
      refl,
    )
      where
        bits :
            (j : ℕ)
            → isset (record b { v = set b.v (i / 8) (clear_bit (word b.v (i / 8)) (i % 8)) }) j
              ≡ (if i == j then false else isset b j)
        bits j = ground (
          arith,
          here,
          isset-clear_word b (i / 8) word_inside (i % 8) (omega arith) (v.bytes (i / 8)) j,
        )

  -- On a valid bitmap `bitmap_mark` sets bit `i`, and no other, if `i` is in range and clear; it
  -- panics only if `i` is out of range or in use already.
  pub mark-Turned : Turned b i true (mark b i)
  unfolding mark isset
  mark-Turned = elim (dec_lt i b.nbits) [
    | yes p ↦ elim (Bool-cases (bit_set (word b.v (i / 8)) (i % 8))) [
      | inl used ↦ rw (lt→ltb _ _ p, used) (inr used)
      | inr clear ↦ rw (lt→ltb _ _ p, clear) (marked p clear)
    ]
    | no p ↦ let out : b.nbits ≤ i = omega arith in rw (le→ltb i b.nbits out) (inl out)
  ]

  -- On a valid bitmap `bitmap_unmark` clears bit `i`, and no other, if `i` is in range and set; it
  -- panics only if `i` is out of range or clear already.
  pub unmark-Turned : Turned b i false (unmark b i)
  unfolding unmark isset
  unmark-Turned = elim (dec_lt i b.nbits) [
    | yes p ↦ elim (Bool-cases (bit_set (word b.v (i / 8)) (i % 8))) [
      | inl used ↦ rw (lt→ltb _ _ p, used) (unmarked p used)
      | inr clear ↦ rw (lt→ltb _ _ p, clear) (inr clear)
    ]
    | no p ↦ let out : b.nbits ≤ i = omega arith in rw (le→ltb i b.nbits out) (inl out)
  ]
