-- ===== src/Libc/Memory/Fill.antt =====
-- bzero and memset.
use ops_class.Base.{
  ℕ, zero, suc, ◌+◌, ◌*◌, ◌/◌, ◌%◌, ◌≡◌, inl, inr, ◌&&◌, ◌==◌, ltb, leb, if◌then◌else◌, arith,
  Bool-cases, subst,
}
use ops_class.Libc.Memory.{Mem, put, long_size, fill, zero_longs, memset, bzero}

-- The bytes at `p` up to `p + hi` are `ch`, the others are as in `mem0`.
abbrev pub Filled : Mem → ℕ → ℕ → ℕ → Mem → Type 0
Filled mem0 p ch hi mem = (a : ℕ) → mem a ≡ (if leb p a && ltb a (p + hi) then ch else mem0 a)

module _ (mem0 : Mem) (p ch : ℕ) where
  fill_step :
      (i : ℕ) (mem : Mem) → Filled mem0 p ch i mem → Filled mem0 p ch (i + 1) (put mem (p + i) ch)
  fill_step i mem filled a = ground (arith, filled a)

  fill-Filled :
      (n i len : ℕ) (mem : Mem)
      → i + n ≡ len
      → Filled mem0 p ch i mem
      → Filled mem0 p ch len (fill n i p ch mem)
  unfolding fill
  fill-Filled zero i len mem e filled = subst (λ k. Filled mem0 p ch k mem) (omega arith) filled
  fill-Filled (suc n) i len mem e filled =
      fill-Filled n (i + 1) len _ (omega arith) (fill_step i mem filled)

Filled-none : (mem : Mem) (p ch : ℕ) → Filled mem p ch 0 mem
Filled-none mem p ch a = ground arith

zero_long : Mem → ℕ → Mem
zero_long mem a = put (put (put (put mem a 0) (a + 1) 0) (a + 2) 0) (a + 3) 0

zero_long_lem :
    (mem : Mem) (d a : ℕ) → zero_long mem d a ≡ (if leb d a && ltb a (d + 4) then 0 else mem a)
unfolding zero_long
zero_long_lem mem d a = ground arith

zero_step :
    (mem0 : Mem) (p i : ℕ) (mem : Mem)
    → Filled mem0 p 0 (i * 4) mem
    → Filled mem0 p 0 ((i + 1) * 4) (zero_long mem (p + i * 4))
zero_step mem0 p i mem filled a = ground (arith, zero_long_lem mem (p + i * 4) a, filled a)

zero_longs-Filled :
    (mem0 : Mem) (p n i len : ℕ) (mem : Mem)
    → (i + n) * 4 ≡ len
    → Filled mem0 p 0 (i * 4) mem
    → Filled mem0 p 0 len (zero_longs n i p mem)
unfolding zero_longs zero_long
zero_longs-Filled mem0 p zero i len mem e filled =
    subst (λ k. Filled mem0 p 0 k mem) (omega arith) filled
zero_longs-Filled mem0 p (suc n) i len mem e filled =
    zero_longs-Filled mem0 p n (i + 1) len _ (omega arith) (zero_step mem0 p i mem filled)

-- memset writes the low byte of `ch` over the region, and nothing else.
pub memset-Filled : (mem : Mem) (p ch len : ℕ) → Filled mem p (ch % 256) len (memset p ch len mem)
unfolding memset
memset-Filled mem p ch len =
    fill-Filled mem p (ch % 256) len 0 len mem (omega arith) (Filled-none mem p (ch % 256))

-- bzero, on bytes or on words, writes zeros over the region, and nothing else.
pub bzero-Filled : (mem : Mem) (p len : ℕ) → Filled mem p 0 len (bzero p len mem)
unfolding bzero
bzero-Filled mem p len = elim (Bool-cases (p % long_size == 0 && len % long_size == 0)) [
  | inl words ↦
      let e : len / 4 * 4 ≡ len = ground (arith, words) in
      rw words (
        zero_longs-Filled mem p (len / long_size) 0 len mem (omega (arith, e))
          (Filled-none mem p 0))
  | inr bytes ↦ rw bytes (fill-Filled mem p 0 len 0 len mem (omega arith) (Filled-none mem p 0))
]
