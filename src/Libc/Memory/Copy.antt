-- ===== src/Libc/Memory/Copy.antt =====
-- The loops of memcpy and memmove.
use ops_class.Base.{
  ℕ, zero, suc, ◌+◌, ◌-◌, ◌*◌, ◌%◌, ◌≤◌, ◌<◌, ◌≡◌, ◌⊎◌, inl, inr, ◌&&◌, ltb, leb, if◌then◌else◌,
  arith, subst,
}
use ops_class.Libc.Memory.{Mem, put, move_long, copy_up, copy_longs_up, copy_down, copy_longs_down}

-- The bytes at `dst + lo` up to `dst + hi` are those that `mem0` has at `src + lo` up to
-- `src + hi`; all others are as in `mem0`.
abbrev pub Moved : Mem → ℕ → ℕ → ℕ → ℕ → Mem → Type 0
Moved mem0 dst src lo hi mem =
    (a : ℕ)
    → mem a ≡ (if leb (dst + lo) a && ltb a (dst + hi) then mem0 (a - dst + src) else mem0 a)

module _ (mem0 : Mem) (dst src : ℕ) where
  -- Going up: what is still to be read has not been overwritten.
  pub up_step :
      (i : ℕ) (mem : Mem)
      → (dst ≤ src) ⊎ (src + i < dst)
      → Moved mem0 dst src 0 i mem
      → Moved mem0 dst src 0 (i + 1) (put mem (dst + i) (mem (src + i)))
  up_step i mem far moved a = ground (arith, moved a, moved (src + i))

  -- Going down: likewise, from the other end.
  down_step :
      (n len : ℕ) (mem : Mem)
      → src ≤ dst
      → n < len
      → Moved mem0 dst src (n + 1) len mem
      → Moved mem0 dst src n len (put mem (dst + n) (mem (src + n)))
  down_step n len mem far h moved a = ground (arith, moved a, moved (src + n))

  pub copy_up-Moved :
      (n i len : ℕ) (mem : Mem)
      → i + n ≡ len
      → (dst ≤ src) ⊎ (src + len ≤ dst)
      → Moved mem0 dst src 0 i mem
      → Moved mem0 dst src 0 len (copy_up n i dst src mem)
  unfolding copy_up
  copy_up-Moved zero i len mem e far moved =
      subst (λ k. Moved mem0 dst src 0 k mem) (omega arith) moved
  copy_up-Moved (suc n) i len mem e far moved =
      copy_up-Moved n (i + 1) len _ (omega arith) far (up_step i mem (here far) moved)
    where
      here : (dst ≤ src) ⊎ (src + len ≤ dst) → (dst ≤ src) ⊎ (src + i < dst)
      here (inl h) = inl h
      here (inr h) = inr (omega arith)

  pub copy_down-Moved :
      (n len : ℕ) (mem : Mem)
      → n ≤ len
      → src ≤ dst
      → Moved mem0 dst src n len mem
      → Moved mem0 dst src 0 len (copy_down n dst src mem)
  unfolding copy_down
  copy_down-Moved zero len mem h far moved = moved
  copy_down-Moved (suc n) len mem h far moved =
      copy_down-Moved n len _ (omega arith) far
        (down_step n len mem far h (subst (λ k. Moved mem0 dst src k len mem) (omega arith) moved))

-- Four bytes at once.
move_long_lem :
    (mem : Mem) (d s a : ℕ)
    → move_long mem d s a ≡ (if leb d a && ltb a (d + 4) then mem (a - d + s) else mem a)
move_long_lem mem d s a = ground arith

module _ (mem0 : Mem) (dst src : ℕ) (dst_aligned : dst % 4 ≡ 0) (src_aligned : src % 4 ≡ 0) where
  up_step_long :
      (i : ℕ) (mem : Mem)
      → (dst ≤ src) ⊎ (src + i * 4 + 3 < dst)
      → Moved mem0 dst src 0 (i * 4) mem
      → Moved mem0 dst src 0 ((i + 1) * 4) (move_long mem (dst + i * 4) (src + i * 4))
  up_step_long i mem far moved a = ground (
    arith,
    move_long_lem mem (dst + i * 4) (src + i * 4) a,
    moved a,
    moved (a - (dst + i * 4) + (src + i * 4)),
  )

  down_step_long :
      (n len : ℕ) (mem : Mem)
      → src ≤ dst
      → (n + 1) * 4 ≤ len
      → Moved mem0 dst src ((n + 1) * 4) len mem
      → Moved mem0 dst src (n * 4) len (move_long mem (dst + n * 4) (src + n * 4))
  down_step_long n len mem far h moved a = ground (
    arith,
    move_long_lem mem (dst + n * 4) (src + n * 4) a,
    moved a,
    moved (a - (dst + n * 4) + (src + n * 4)),
  )

  pub copy_longs_up-Moved :
      (n i len : ℕ) (mem : Mem)
      → (i + n) * 4 ≡ len
      → (dst ≤ src) ⊎ (src + len ≤ dst)
      → Moved mem0 dst src 0 (i * 4) mem
      → Moved mem0 dst src 0 len (copy_longs_up n i dst src mem)
  unfolding copy_longs_up
  copy_longs_up-Moved zero i len mem e far moved =
      subst (λ k. Moved mem0 dst src 0 k mem) (omega arith) moved
  copy_longs_up-Moved (suc n) i len mem e far moved =
      copy_longs_up-Moved n (i + 1) len _ (omega arith) far (up_step_long i mem (here far) moved)
    where
      here : (dst ≤ src) ⊎ (src + len ≤ dst) → (dst ≤ src) ⊎ (src + i * 4 + 3 < dst)
      here (inl h) = inl h
      here (inr h) = inr (omega arith)

  pub copy_longs_down-Moved :
      (n len : ℕ) (mem : Mem)
      → n * 4 ≤ len
      → src ≤ dst
      → Moved mem0 dst src (n * 4) len mem
      → Moved mem0 dst src 0 len (copy_longs_down n dst src mem)
  unfolding copy_longs_down
  copy_longs_down-Moved zero len mem h far moved = moved
  copy_longs_down-Moved (suc n) len mem h far moved =
      copy_longs_down-Moved n len _ (omega arith) far (
        down_step_long n len mem far (omega arith)
          (subst (λ k. Moved mem0 dst src k len mem) (omega arith) moved))
