-- ===== src/Libc/Strings/Copy.antt =====
-- strcpy and strcat.
use ops_class.Base.{
  ℕ, zero, suc, ◌+◌, ◌-◌, ◌≤◌, ◌<◌, ◌≡◌, ◌≢◌, sym, ◌∙◌, ◌⊎◌, inl, inr, Option, none, some, ◌==◌,
  arith, Bool-cases, subst, ==→eq, ==→ne,
}
use ops_class.Libc.Memory.{Mem, put}
use ops_class.Libc.Memory.Copy.{Moved, up_step}
use ops_class.Libc.Memory.Move.{Moved-none}
use ops_class.Libc.Strings.{strcpy_loop, strcpy, append_at, strcat}
use ops_class.Libc.Strings.Length.{IsString, strlen_lem}

-- The string at `src` in `mem0`, `n` long, stands at `dest` as well, and all else is as before.
abbrev pub CopiedString : Mem → ℕ → ℕ → ℕ → Option Mem → Type 0
CopiedString mem0 dest src n none = ⊥
CopiedString mem0 dest src n (some mem) = Moved mem0 dest src 0 (n + 1) mem

module _ (mem0 : Mem) (dest src n : ℕ) (s : IsString mem0 src n)
    (far : (dest ≤ src) ⊎ (src + n < dest)) where
  strcpy_loop-CopiedString :
      (rounds i : ℕ) (mem : Mem)
      → i ≤ n
      → n < i + rounds
      → Moved mem0 dest src 0 i mem
      → CopiedString mem0 dest src n (strcpy_loop rounds i dest src mem)
  unfolding strcpy_loop
  strcpy_loop-CopiedString zero i mem low high moved = absurd (omega arith)
  strcpy_loop-CopiedString (suc rounds) i mem low high moved =
      elim (Bool-cases (mem (src + i) == 0)) [
        | inl stop ↦
            let z = ==→eq (mem (src + i)) 0 stop in
            let e : i ≡ n = grind (arith, s.chars i, z, same) in
            rw stop (
              subst (λ k. Moved mem0 dest src 0 (k + 1) (put mem (dest + i) 0)) e
                (subst (λ v. Moved mem0 dest src 0 (i + 1) (put mem (dest + i) v)) z next))
        | inr more ↦
            let z = ==→ne (mem (src + i)) 0 more in
            let e : i ≢ n = λ h. z (same ∙ subst (λ k. mem0 (src + k) ≡ 0) (sym h) s.terminator) in
            rw more (strcpy_loop-CopiedString rounds (i + 1) _ (omega arith) (omega arith) next)
      ]
    where
      near : (dest ≤ src) ⊎ (src + n < dest) → (dest ≤ src) ⊎ (src + i < dest)
      near (inl h) = inl h
      near (inr h) = inr (omega arith)

      next : Moved mem0 dest src 0 (i + 1) (put mem (dest + i) (mem (src + i)))
      next = up_step mem0 dest src i mem (near far) moved

      same : mem (src + i) ≡ mem0 (src + i)
      same = ground (arith, far, moved (src + i))

  -- strcpy copies a string with its terminator and changes nothing else, given more rounds than it
  -- is long, unless the destination begins inside the source.
  pub strcpy-CopiedString :
      (rounds : ℕ) → n < rounds → CopiedString mem0 dest src n (strcpy rounds dest src mem0)
  unfolding strcpy
  strcpy-CopiedString rounds h =
      strcpy_loop-CopiedString rounds 0 mem0 (omega arith) (omega arith)
        (Moved-none mem0 dest src 0)

-- `mem'` has at `dest` the `m` characters that were there, and then the `n` of `src`.
abbrev pub Appended : Mem → ℕ → ℕ → ℕ → ℕ → Option Mem → Type 0
Appended mem dest src m n none = ⊥
Appended mem dest src m n (some mem') =
    IsString mem' dest (m + n)
    × ((i : ℕ) → i < m → mem' (dest + i) ≡ mem (dest + i))
    × ((i : ℕ) → i < n → mem' (dest + m + i) ≡ mem (src + i))

-- strcat of two strings that do not overlap, given more rounds than either is long, leaves at the
-- destination the one followed by the other, as a string.
pub strcat-Appended :
    (rounds dest src m n : ℕ) (mem : Mem)
    → IsString mem dest m
    → IsString mem src n
    → m < rounds
    → n < rounds
    → (dest + m + n < src) ⊎ (src + n < dest)
    → Appended mem dest src m n (strcat rounds dest src mem)
unfolding strcat append_at
strcat-Appended rounds dest src m n mem d s hm hn far = rw (strlen_lem rounds dest m mem d hm) (
    go (strcpy rounds (dest + m) src mem)
      (strcpy-CopiedString mem (dest + m) src n s (apart far) rounds hn))
  where
    apart : (dest + m + n < src) ⊎ (src + n < dest) → (dest + m ≤ src) ⊎ (src + n < dest + m)
    apart (inl h) = inl (omega arith)
    apart (inr h) = inr (omega arith)

    go : (r : Option Mem) → CopiedString mem (dest + m) src n r → Appended mem dest src m n r
    go none h = h
    go (some mem') moved = (
      record { chars = chars; terminator = ground (arith, moved (dest + (m + n)), s.terminator) },
      front,
      back,
    )
      where
        front : (i : ℕ) → i < m → mem' (dest + i) ≡ mem (dest + i)
        front i h = ground (arith, moved (dest + i))

        back : (i : ℕ) → i < n → mem' (dest + m + i) ≡ mem (src + i)
        back i h = ground (arith, moved (dest + m + i))

        chars : (i : ℕ) → i < m + n → mem' (dest + i) ≢ 0
        chars i h = grind (arith, d.chars i, s.chars (i - m), front i, back (i - m))
