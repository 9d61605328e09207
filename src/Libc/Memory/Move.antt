-- ===== src/Libc/Memory/Move.antt =====
-- memcpy and memmove.
use ops_class.Base.{
  ℕ, ◌+◌, ◌*◌, ◌/◌, ◌%◌, ◌≤◌, ◌≡◌, ◌⊎◌, inl, inr, ltb, arith, Bool-cases, true, subst, ltb→lt,
  ltb→le,
}
use ops_class.Libc.Memory.{Mem, aligned, memcpy, memmove, long_size}
use ops_class.Libc.Memory.Copy.{
  Moved, copy_up-Moved, copy_down-Moved, copy_longs_up-Moved, copy_longs_down-Moved,
}

pub Moved-none : (mem : Mem) (dst src lo : ℕ) → Moved mem dst src lo lo mem
Moved-none mem dst src lo a = ground arith

aligned_parts :
    (dst src len : ℕ)
    → aligned dst src len ≡ true
    → (dst % 4 ≡ 0) × (src % 4 ≡ 0) × (len / 4 * 4 ≡ len)
aligned_parts dst src len h = ground arith

-- memcpy, on bytes or on words, leaves a copy of the source at the destination and changes nothing
-- else, unless the destination begins inside the source.
pub memcpy-Moved :
    (mem : Mem) (dst src len : ℕ)
    → (dst ≤ src) ⊎ (src + len ≤ dst)
    → Moved mem dst src 0 len (memcpy dst src len mem)
unfolding memcpy
memcpy-Moved mem dst src len far = elim (Bool-cases (aligned dst src len)) [
  | inl words ↦
      let p = aligned_parts dst src len words in
      rw words (
        copy_longs_up-Moved mem dst src p.0 p.1 (len / long_size) 0 len mem (omega (arith, p.2)) far
          (Moved-none mem dst src 0))
  | inr bytes ↦
      rw bytes
        (copy_up-Moved mem dst src len 0 len mem (omega arith) far (Moved-none mem dst src 0))
]

-- memmove leaves at the destination what stood at the source before the call, however the two
-- regions overlap, and changes nothing else.
pub memmove-Moved :
    (mem : Mem) (dst src len : ℕ) → Moved mem dst src 0 len (memmove dst src len mem)
unfolding memmove
memmove-Moved mem dst src len = elim (Bool-cases (ltb dst src)) [
  | inl below ↦
      let h : dst ≤ src = omega (arith, ltb→lt dst src below) in
      rw below (memcpy-Moved mem dst src len (inl h))
  | inr above ↦ rw above (elim (Bool-cases (aligned dst src len)) [
    | inl words ↦
        let p = aligned_parts dst src len words in
        rw words (
          copy_longs_down-Moved mem dst src p.0 p.1 (len / long_size) len mem (omega (arith, p.2))
            (ltb→le dst src above)
            (subst (λ k. Moved mem dst src k len mem) (omega (arith, p.2))
              (Moved-none mem dst src len)))
    | inr bytes ↦ rw bytes (
        copy_down-Moved mem dst src len len mem (omega arith) (ltb→le dst src above)
          (Moved-none mem dst src len))
  ])
]
