-- ===== src/Bitmap/Valid.antt =====
-- What holds of every bitmap, and what a write of one byte does to the bits.
use ops_class.Base.{
  ℕ, ◌+◌, ◌*◌, ◌/◌, ◌%◌, ◌^◌, ◌≤◌, ◌<◌, ◌≡◌, true, false, arith, ◌==◌, if◌then◌else◌, length, set,
  length-set, get_or-set, set_outside, ◌∙◌, dec_lt,
}
use ops_class.Base.Bits.{bit_set, set_bit, clear_bit, bit_set-set_bit, bit_set-clear_bit}
use ops_class.Bitmap.{Bitmap, word, or_word, isset}

pub record IsValid (b : Bitmap) : Type 0 where
  -- `nbits + 7` does not wrap
  pub small : b.nbits + 7 < 2 ^ 32
  pub sized : length b.v ≡ (b.nbits + 7) / 8
  pub bytes : (ix : ℕ) → word b.v ix < 256
  -- the bits past the end are in use
  pub over : (i : ℕ) → b.nbits ≤ i → i < 8 * length b.v → isset b i ≡ true

module _ (b : Bitmap) (ix : ℕ) (inside : ix < length b.v) where
  isset-set :
      (w j : ℕ)
      → isset (record b { v = set b.v ix w }) j
        ≡ (if ix == j / 8 then bit_set w (j % 8) else isset b j)
  unfolding isset
  isset-set w j = ground (arith, get_or-set b.v ix (j / 8) w 0)

  module _ (k : ℕ) (small : k < 8) (byte : word b.v ix < 256) where
    -- Setting bit `k` of byte `ix` sets the bit `ix * 8 + k` of the map and no other.
    pub isset-or_word :
        (j : ℕ)
        → isset (record b { v = or_word b.v ix k }) j
          ≡ (if ix * 8 + k == j then true else isset b j)
    unfolding isset
    isset-or_word j =
        ground (
          arith,
          isset-set (set_bit (word b.v ix) k) j,
          bit_set-set_bit (word b.v ix) k (j % 8) byte,
        )

    pub isset-clear_word :
        (j : ℕ)
        → isset (record b { v = set b.v ix (clear_bit (word b.v ix) k) }) j
          ≡ (if ix * 8 + k == j then false else isset b j)
    unfolding isset
    isset-clear_word j = ground (
      arith,
      isset-set (clear_bit (word b.v ix) k) j,
      bit_set-clear_bit (word b.v ix) k (j % 8) byte,
    )

-- A write of a byte that keeps the bits past the end in use keeps the bitmap valid.
pub IsValid-set :
    {b : Bitmap} (ix w : ℕ)
    → IsValid b
    → w < 256
    → ((i : ℕ) → b.nbits ≤ i → i < 8 * length b.v → isset (record b { v = set b.v ix w }) i ≡ true)
    → IsValid (record b { v = set b.v ix w })
IsValid-set {b} ix w v hw over = record {
  small = v.small;
  sized = length-set b.v ix w ∙ v.sized;
  bytes = λ k. bytes k;
  over = λ i out in_. over i out (omega (arith, length-set b.v ix w));
}
  where
    bytes : (k : ℕ) → word (set b.v ix w) k < 256
    bytes k = elim (dec_lt ix (length b.v)) [
      | yes p ↦ ground (arith, get_or-set b.v ix k w 0 p, v.bytes k)
      | no p ↦ ground (arith, set_outside b.v ix w, v.bytes k)
    ]
