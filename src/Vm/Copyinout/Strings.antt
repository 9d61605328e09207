-- ===== src/Vm/Copyinout/Strings.antt =====
-- copyinstr and copyoutstr: how much of a string is copied, and which end is reported.
use ops_class.Base.{
  ℕ, zero, suc, ◌+◌, ◌-◌, ◌^◌, min, ◌≤◌, ◌<◌, ◌≡◌, ◌≢◌, refl, sym, ◌∙◌, ◌⊎◌, inl, inr, true, false,
  Option, none, some, ◌==◌, arith, Bool-cases, subst, ==→eq, ==→ne, lt→ltb, le→ltb,
}
use ops_class.Base.Run.{Errno, efault, enametoolong, Ensures, returns, fails}
use ops_class.Libc.Memory.{Mem, put}
use ops_class.Libc.Memory.Copy.{Moved, up_step}
use ops_class.Libc.Memory.Move.{Moved-none}
use ops_class.Vm.Copyinout.{
  userspacetop, copycheck, Kernel, Mapped, Scan, ends, runs_out, faults, scan, scanned, copystr,
  checked_copystr, copyinstr, copyoutstr,
}
use ops_class.Vm.Copyinout.Check.{Checked, Outside, copycheck-Checked, AllMapped}

-- The `n` characters at `src` are not terminators.
abbrev pub NoEnd : Mem → ℕ → ℕ → Type 0
NoEnd mem src n = (j : ℕ) → j < n → mem (src + j) ≢ 0

module _ (ok : Mapped) (user dest src : ℕ) (mem0 : Mem) where
  -- `i` characters have been copied, none of them a terminator.
  abbrev pub Progress : ℕ → Mem → Type 0
  Progress i mem = NoEnd mem0 src i × AllMapped ok user i × Moved mem0 dest src 0 i mem

  -- The string with its terminator is `got` long, at most `n`, and has been copied.
  abbrev pub Ended : ℕ → ℕ → Mem → Type 0
  Ended n got mem =
      (0 < got)
      × (got ≤ n)
      × (mem0 (src + (got - 1)) ≡ 0)
      × NoEnd mem0 src (got - 1)
      × AllMapped ok user got
      × Moved mem0 dest src 0 got mem

  abbrev pub Scanned : ℕ → Scan → Type 0
  Scanned n (ends got mem) = Ended n got mem
  Scanned n (runs_out mem) = Progress n mem
  Scanned n (faults mem) = (i : ℕ) × (i < n) × (ok (user + i) ≡ false) × Progress i mem

  AllMapped-step : (i : ℕ) → AllMapped ok user i → ok (user + i) ≡ true → AllMapped ok user (i + 1)
  AllMapped-step i all here j h = grind (arith, all j, here)

  NoEnd-step : (i : ℕ) → NoEnd mem0 src i → mem0 (src + i) ≢ 0 → NoEnd mem0 src (i + 1)
  NoEnd-step i all here j h = grind (arith, all j, here)

  scan-Scanned :
      (n i len : ℕ) (mem : Mem)
      → i + n ≡ len
      → (dest ≤ src) ⊎ (src + len ≤ dest)
      → Progress i mem
      → Scanned len (scan ok user dest src n i mem)
  unfolding scan
  scan-Scanned zero i len mem e far p = subst (λ k. Progress k mem) (omega arith) p
  scan-Scanned (suc n) i len mem e far (clear, mapped, moved) = elim (Bool-cases (ok (user + i))) [
    | inr bad ↦ rw bad (i, omega arith, bad, (clear, mapped, moved))
    | inl good ↦ rw good (elim (Bool-cases (mem' (src + i) == 0)) [
      | inl nul ↦ rw nul (
        omega arith,
        omega arith,
        subst (λ k. mem0 (src + k) ≡ 0) (omega arith) (sym same ∙ ==→eq (mem' (src + i)) 0 nul),
        subst (NoEnd mem0 src) (omega arith) clear,
        AllMapped-step i mapped good,
        next,
      )
      | inr more ↦ rw more (
          scan-Scanned n (i + 1) len mem' (omega arith) far (
            NoEnd-step i clear (λ z. ==→ne (mem' (src + i)) 0 more (same ∙ z)),
            AllMapped-step i mapped good,
            next,
          ))
    ])
  ]
    where
      mem' : Mem
      mem' = put mem (dest + i) (mem (src + i))

      near : (dest ≤ src) ⊎ (src + len ≤ dest) → (dest ≤ src) ⊎ (src + i < dest)
      near (inl h) = inl h
      near (inr h) = inr (omega arith)

      next : Moved mem0 dest src 0 (i + 1) mem'
      next = up_step mem0 dest src i mem (near far) moved

      same : mem' (src + i) ≡ mem0 (src + i)
      same = ground (arith, far, moved (src + i))

module _ (ok : Mapped) (user dest src len : ℕ) (k : Kernel) where
  -- The string fits, is all in mapped user memory, and has been copied with its terminator.
  abbrev pub Got : ℕ → Kernel → Type 0
  Got got k' =
      Ended ok user dest src k.mem len got k'.mem × (user + got ≤ userspacetop) × (k'.armed ≡ false)

  -- `n` characters have been copied, no terminator among them.
  abbrev pub Unended : ℕ → Kernel → Type 0
  Unended n k' = Progress ok user dest src k.mem n k'.mem × (k'.armed ≡ false)

  -- EFAULT: the region is empty and not at 0, begins in the kernel or wraps around, and nothing is
  -- copied; or the string runs to the end of user space; or a byte of it faults. ENAMETOOLONG: no
  -- terminator in the space given.
  abbrev pub NotGot : Errno → Kernel → Type 0
  NotGot e k' =
      ((e ≡ efault)
        × (((k' ≡ k) × Outside user len)
            ⊎ ((n : ℕ) × (n < len) × (user + n ≡ userspacetop) × Unended n k')
            ⊎ ((n : ℕ) × (n < len) × (ok (user + n) ≡ false) × Unended n k')))
      ⊎ ((e ≡ enametoolong) × Unended len k')

  scanned-Got :
      (stoplen : ℕ) (s : Scan)
      → Checked user len (some stoplen)
      → Scanned ok user dest src k.mem (min len stoplen) s
      → Ensures Got NotGot (scanned len stoplen true s)
  unfolding scanned
  scanned-Got n (ends got mem) c (pos, small, nul, clear, mapped, moved) =
      returns ((pos, omega arith, nul, clear, mapped, moved), grind (arith, c), refl)
  scanned-Got n (runs_out mem) (inl (z, at, all)) p = rw (le→ltb n len (omega arith)) (
      fails
        (inr (refl, (subst (λ j. Progress ok user dest src k.mem j mem) (omega arith) p, refl))))
  scanned-Got n (runs_out mem) (inr (pos, small, in_, flat, inl e)) p =
      rw (le→ltb n len (omega arith)) (
        fails
          (inr (refl, (subst (λ j. Progress ok user dest src k.mem j mem) (omega arith) p, refl))))
  scanned-Got n (runs_out mem) (inr (pos, small, in_, flat, inr (at, less))) p =
      rw (lt→ltb n len less) (
        fails (
          inl (
            refl,
            inr (
                inl (
                  n,
                  less,
                  at,
                  (subst (λ j. Progress ok user dest src k.mem j mem) (omega arith) p, refl),
                )),
          )))
  scanned-Got n (faults mem) c (i, less, bad, p) =
      fails (inl (refl, inr (inr (i, omega arith, bad, (p, refl)))))

  checked_copystr-Got :
      (r : Option ℕ)
      → Checked user len r
      → (dest ≤ src) ⊎ (src + len ≤ dest)
      → Ensures Got NotGot (checked_copystr r ok user dest src len k)
  unfolding checked_copystr copystr
  checked_copystr-Got none c far = fails (inl (refl, inl (refl, c)))
  checked_copystr-Got (some n) c far = scanned-Got n (scan ok user dest src (min len n) 0 k.mem) c (
      scan-Scanned ok user dest src k.mem (min len n) 0 (min len n) k.mem (omega arith) (nearer far)
        (λ j h. absurd (omega arith), λ j h. absurd (omega arith), Moved-none k.mem dest src 0))
    where
      nearer : (dest ≤ src) ⊎ (src + len ≤ dest) → (dest ≤ src) ⊎ (src + min len n ≤ dest)
      nearer (inl h) = inl h
      nearer (inr h) = inr (omega arith)

-- For 32-bit numbers and a buffer that does not begin inside the user's region, copyinstr returns
-- the length of the string, its terminator included, with the string copied from mapped user memory
-- and nothing else changed; or EFAULT with nothing copied for a region that is empty and not at 0,
-- begins in the kernel or wraps around; or it reports the end that came before a terminator: EFAULT
-- for the end of user space or a byte that faults, ENAMETOOLONG for the end of the space given.
pub copyinstr-Got :
    (ok : Mapped) (usersrc dest len : ℕ) (k : Kernel)
    → usersrc < 2 ^ 32
    → len < 2 ^ 32
    → (dest ≤ usersrc) ⊎ (usersrc + len ≤ dest)
    → Ensures
        (Got ok usersrc dest usersrc len k)
        (NotGot ok usersrc dest usersrc len k)
        (copyinstr ok usersrc dest len k)
unfolding copyinstr
copyinstr-Got ok usersrc dest len k a l far =
    checked_copystr-Got ok usersrc dest usersrc len k (copycheck usersrc len)
      (copycheck-Checked usersrc len a l) far

-- For 32-bit numbers and user memory that does not begin inside the kernel's buffer, copyoutstr
-- returns the length of the string, its terminator included, with the string copied into mapped
-- user memory and nothing else changed; or EFAULT with nothing copied for a region that is empty and
-- not at 0, begins in the kernel or wraps around; or it reports the end that came before a
-- terminator: EFAULT for the end of user space or a byte that faults, ENAMETOOLONG for the end of
-- the space given.
pub copyoutstr-Got :
    (ok : Mapped) (src userdest len : ℕ) (k : Kernel)
    → userdest < 2 ^ 32
    → len < 2 ^ 32
    → (userdest ≤ src) ⊎ (src + len ≤ userdest)
    → Ensures
        (Got ok userdest userdest src len k)
        (NotGot ok userdest userdest src len k)
        (copyoutstr ok src userdest len k)
unfolding copyoutstr
copyoutstr-Got ok src userdest len k a l far =
    checked_copystr-Got ok userdest userdest src len k (copycheck userdest len)
      (copycheck-Checked userdest len a l) far
