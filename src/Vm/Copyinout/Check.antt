-- ===== src/Vm/Copyinout/Check.antt =====
-- `copycheck`, copyin and copyout.
use ops_class.Base.{
  ℕ, zero, suc, ◌+◌, ◌^◌, ◌≤◌, ◌<◌, ◌≡◌, refl, ◌⊎◌, inl, inr, true, false, Option, none, some, ◌==◌,
  if◌then◌else◌, arith, Bool-cases, subst, eq→==, ne→==,
}
use ops_class.Base.Run.{Run, Errno, efault, done, fail, Ensures, returns, fails}
use ops_class.Libc.Memory.{copy_up, memcpy}
use ops_class.Libc.Memory.Copy.{Moved, copy_up-Moved}
use ops_class.Libc.Memory.Move.{memcpy-Moved, Moved-none}
use ops_class.Vm.Copyinout.{
  userspacetop, copycheck, Kernel, Mapped, reach, user_memcpy, checked_memcpy, copyin, copyout,
}

-- The region is empty and not at 0, begins in the kernel, or wraps around.
abbrev pub Outside : ℕ → ℕ → Type 0
Outside addr len = ((len ≡ 0) × (0 < addr)) ⊎ (userspacetop ≤ addr) ⊎ (2 ^ 32 < addr + len)

-- The answer for a region of `len` bytes at `addr`: EFAULT if it is outside of user space in one of
-- the three ways; `userspacetop` for the empty region at 0; otherwise the bytes of it that are in
-- user space.
abbrev pub Checked : ℕ → ℕ → Option ℕ → Type 0
Checked addr len none = Outside addr len
Checked addr len (some n) =
    ((len ≡ 0) × (addr ≡ 0) × (n ≡ userspacetop))
    ⊎ ((0 < n)
        × (n ≤ len)
        × (addr + n ≤ userspacetop)
        × (addr + len ≤ 2 ^ 32)
        × ((n ≡ len) ⊎ ((addr + n ≡ userspacetop) × (n < len))))

-- For 32-bit numbers copycheck answers EFAULT just if the region is empty and not at 0, begins in
-- the kernel, or wraps around; for the empty region at 0 it gives the size of user space, and for
-- any other region the number of its bytes that are in user space.
pub copycheck-Checked :
    (addr len : ℕ) → addr < 2 ^ 32 → len < 2 ^ 32 → Checked addr len (copycheck addr len)
unfolding copycheck
copycheck-Checked addr len a l = ground arith

-- All of the user's bytes can be accessed.
abbrev pub AllMapped : Mapped → ℕ → ℕ → Type 0
AllMapped ok user n = (i : ℕ) → i < n → ok (user + i) ≡ true

-- The first of the user's bytes that cannot be accessed is `i`.
abbrev pub FaultAt : Mapped → ℕ → ℕ → Type 0
FaultAt ok user i = (ok (user + i) ≡ false) × AllMapped ok user i

pub Reached : Mapped → ℕ → ℕ → ℕ → Type 0
Reached ok user n r = ((r ≡ n) × AllMapped ok user n) ⊎ ((r < n) × FaultAt ok user r)

reach-Reached : (ok : Mapped) (user n : ℕ) → Reached ok user n (reach ok user n)
unfolding reach Reached
reach-Reached ok user zero = inl (refl, λ i h. absurd (omega arith))
reach-Reached ok user (suc n) = elim (Bool-cases (ok user)) [
  | inl hit ↦ rw hit (step (reach ok (user + 1) n) (reach-Reached ok (user + 1) n) hit)
  | inr miss ↦ rw miss (
      inr
        (omega arith, (subst (λ a. ok a ≡ false) (omega arith) miss, λ i h. absurd (omega arith))))
]
  where
    longer : (k : ℕ) → ok user ≡ true → AllMapped ok (user + 1) k → AllMapped ok user (k + 1)
    longer k hit all zero h = subst (λ a. ok a ≡ true) (omega arith) hit
    longer k hit all (suc i) h = subst (λ a. ok a ≡ true) (omega arith) (all i (omega arith))

    step : (r : ℕ) → Reached ok (user + 1) n r → ok user ≡ true → Reached ok user (suc n) (r + 1)
    step r (inl (e, all)) hit =
        inl (omega arith, subst (AllMapped ok user) (omega arith) (longer n hit all))
    step r (inr (less, (bad, all))) hit =
        inr (omega arith, (subst (λ a. ok a ≡ false) (omega arith) bad, longer r hit all))

module _ (ok : Mapped) (user dest src len : ℕ) (k : Kernel) where
  -- All of the region is mapped user memory, and has been copied.
  abbrev pub CopiedUser : Unit {0} → Kernel → Type 0
  CopiedUser _ k' =
      (user + len ≤ userspacetop)
      × AllMapped ok user len
      × Moved k.mem dest src 0 len k'.mem
      × (k'.armed ≡ false)

  -- The region is empty, or not all of it is user memory, and nothing is copied; or it has a byte
  -- that faults, and the bytes before that are copied.
  abbrev pub Fault : Errno → Kernel → Type 0
  Fault e k' =
      (e ≡ efault)
      × (((k' ≡ k) × ((len ≡ 0) ⊎ (userspacetop < user + len)))
          ⊎ ((i : ℕ) × (i < len)
              × FaultAt ok user i
              × Moved k.mem dest src 0 i k'.mem
              × (k'.armed ≡ false)))

  user_memcpy-CopiedUser :
      user + len ≤ userspacetop
      → (dest ≤ src) ⊎ (src + len ≤ dest)
      → Ensures CopiedUser Fault (user_memcpy ok user dest src len (record k { armed = true }))
  unfolding user_memcpy Reached
  user_memcpy-CopiedUser inside far = go (reach ok user len) (reach-Reached ok user len)
    where
      go :
          (n : ℕ)
          → Reached ok user len n
          → Ensures CopiedUser Fault (
              if n == len
              then done tt (record { mem = memcpy dest src len k.mem; armed = false })
              else fail efault (record { mem = copy_up n 0 dest src k.mem; armed = false }))
      go n (inl (e, all)) =
          rw (eq→== n len e) (returns (inside, all, memcpy-Moved k.mem dest src len far, refl))
      go n (inr (less, bad)) = rw (ne→== n len (λ e. omega (arith, e, less))) (
          fails (
            refl,
            inr (
              n,
              less,
              bad,
              copy_up-Moved k.mem dest src n 0 n k.mem (omega arith) (sooner far)
                  (Moved-none k.mem dest src 0),
              refl,
            ),
          ))
        where
          sooner : (dest ≤ src) ⊎ (src + len ≤ dest) → (dest ≤ src) ⊎ (src + n ≤ dest)
          sooner (inl h) = inl h
          sooner (inr h) = inr (omega arith)

  checked_memcpy-CopiedUser :
      (r : Option ℕ)
      → Checked user len r
      → (dest ≤ src) ⊎ (src + len ≤ dest)
      → Ensures CopiedUser Fault (checked_memcpy r ok user dest src len k)
  unfolding checked_memcpy
  checked_memcpy-CopiedUser none c far = fails (refl, inl (refl, outside c))
    where
      outside : Outside user len → (len ≡ 0) ⊎ (userspacetop < user + len)
      outside c = grind (arith, c)
  checked_memcpy-CopiedUser (some n) (inl (e, at, all)) far =
      rw (ne→== n len (λ h. omega (arith, h))) (fails (refl, inl (refl, inl e)))
  checked_memcpy-CopiedUser (some n) (inr (pos, small, in_, flat, inl e)) far =
      rw (eq→== n len e) (user_memcpy-CopiedUser (omega arith) far)
  checked_memcpy-CopiedUser (some n) (inr (pos, small, in_, flat, inr (e, less))) far =
      rw (ne→== n len (λ h. omega (arith, h))) (fails (refl, inl (refl, inr (omega arith))))

-- For 32-bit numbers and a buffer that does not begin inside the user's region, copyin returns 0 with the bytes
-- copied, all of them mapped user memory, and nothing else changed; or EFAULT because the region is
-- empty or not all user memory, with nothing changed, or because a byte faults, with the bytes
-- before it copied. The recovery from faults is always taken down again.
pub copyin-CopiedUser :
    (ok : Mapped) (usersrc dest len : ℕ) (k : Kernel)
    → usersrc < 2 ^ 32
    → len < 2 ^ 32
    → (dest ≤ usersrc) ⊎ (usersrc + len ≤ dest)
    → Ensures
        (CopiedUser ok usersrc dest usersrc len k)
        (Fault ok usersrc dest usersrc len k)
        (copyin ok usersrc dest len k)
unfolding copyin
copyin-CopiedUser ok usersrc dest len k a l far =
    checked_memcpy-CopiedUser ok usersrc dest usersrc len k (copycheck usersrc len)
      (copycheck-Checked usersrc len a l) far

-- For 32-bit numbers and user memory that does not begin inside the kernel's buffer, copyout
-- returns 0 with the bytes copied into mapped user memory and nothing else changed; or EFAULT
-- because the region is empty or not all user memory, with nothing changed, or because a byte
-- faults, with the bytes before it copied.
pub copyout-CopiedUser :
    (ok : Mapped) (src userdest len : ℕ) (k : Kernel)
    → userdest < 2 ^ 32
    → len < 2 ^ 32
    → (userdest ≤ src) ⊎ (src + len ≤ userdest)
    → Ensures
        (CopiedUser ok userdest userdest src len k)
        (Fault ok userdest userdest src len k)
        (copyout ok src userdest len k)
unfolding copyout
copyout-CopiedUser ok src userdest len k a l far =
    checked_memcpy-CopiedUser ok userdest userdest src len k (copycheck userdest len)
      (copycheck-Checked userdest len a l) far

-- Whatever the addresses, a copy returns 0 or EFAULT.
abbrev pub ZeroOrFault : Run Kernel (Unit {0}) → Type 0
ZeroOrFault = Ensures (λ _ k. Unit {0}) (λ e k. e ≡ efault)

checked_memcpy-ZeroOrFault :
    (stoplen : Option ℕ) (ok : Mapped) (user dest src len : ℕ) (k : Kernel)
    → ZeroOrFault (checked_memcpy stoplen ok user dest src len k)
unfolding checked_memcpy user_memcpy
checked_memcpy-ZeroOrFault none ok user dest src len k = fails refl
checked_memcpy-ZeroOrFault (some stoplen) ok user dest src len k =
    elim (Bool-cases (stoplen == len)) [
      | inr bad ↦ rw bad (fails refl)
      | inl good ↦ rw good (elim (Bool-cases (reach ok user len == len)) [
        | inl all ↦ rw all (returns tt)
        | inr some_ ↦ rw some_ (fails refl)
      ])
    ]

pub copyin-ZeroOrFault :
    (ok : Mapped) (usersrc dest len : ℕ) (k : Kernel) → ZeroOrFault (copyin ok usersrc dest len k)
unfolding copyin
copyin-ZeroOrFault ok usersrc dest len k =
    checked_memcpy-ZeroOrFault (copycheck usersrc len) ok usersrc dest usersrc len k

pub copyout-ZeroOrFault :
    (ok : Mapped) (src userdest len : ℕ) (k : Kernel) → ZeroOrFault (copyout ok src userdest len k)
unfolding copyout
copyout-ZeroOrFault ok src userdest len k =
    checked_memcpy-ZeroOrFault (copycheck userdest len) ok userdest userdest src len k
