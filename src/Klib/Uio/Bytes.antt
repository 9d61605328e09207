-- ===== src/Klib/Uio/Bytes.antt =====
-- The bytes that `uiomove` moves for a kernel buffer.
use ops_class.Base.{
  ℕ, suc, ◌+◌, ◌-◌, ◌%◌, ◌^◌, ◌<◌, ◌≡◌, true, false, ◌||◌, ◌==◌, ltb, if◌then◌else◌, Option, arith,
  Bool-cases, min, subst, inl, inr,
}
use ops_class.Base.Run.{Run, done, Ensures, returns}
use ops_class.Libc.Memory.Copy.{Moved}
use ops_class.Libc.Memory.Move.{memmove-Moved, Moved-none}
use ops_class.Vm.Copyinout.{Kernel, Mapped}
use ops_class.Klib.Uio.{UioRw, uio_read, uio_write, Io, transfer, round, move_loop, uiomove, kinit}

-- Where the bytes go, and where they come from.
abbrev pub target : UioRw → ℕ → ℕ → ℕ
target uio_read ptr kbuf = kbuf
target uio_write ptr kbuf = ptr

abbrev pub origin : UioRw → ℕ → ℕ → ℕ
origin uio_read ptr kbuf = ptr
origin uio_write ptr kbuf = kbuf

module _ (ok : Mapped) (ptr kbuf len n pos : ℕ) (k : Kernel) where
  abbrev pub request : UioRw → Io
  request rw_ = record { kernel = k; uio = kinit kbuf len pos rw_ }

  -- `m` bytes have been moved.
  abbrev pub MovedBytes : UioRw → ℕ → Run Io (Unit {0}) → Type 0
  MovedBytes rw_ m =
      Ensures (λ _ io. Moved k.mem (target rw_ ptr kbuf) (origin rw_ ptr kbuf) 0 m io.kernel.mem)
        (λ e io. ⊥)

  abbrev size : ℕ
  size = if ltb n len then n else len

  min-size : size ≡ min n len
  min-size = ground arith

  module _ (go_on : (n == 0 || (len == 0)) ≡ false) where
    some_size : (size == 0) ≡ false
    some_size = ground (arith, go_on)

    all_done : len < 2 ^ 32 → (n - size == 0 || ((len + 2 ^ 32 - size) % 2 ^ 32 == 0)) ≡ true
    all_done small = elim (Bool-cases (ltb n len)) [
      | inl less ↦ rw less (ground arith)
      | inr more ↦ rw more (ground (arith, small))
    ]

  two_rounds :
      (rw_ : UioRw) (rounds : ℕ)
      → len < 2 ^ 32
      → MovedBytes rw_ size (move_loop ok (suc (suc rounds)) ptr n (request rw_))
  unfolding move_loop round transfer kinit
  two_rounds uio_read rounds small = elim (Bool-cases (n == 0 || (len == 0))) [
    | inl stop ↦
        let none_ : 0 ≡ size = ground (arith, stop) in
        rw stop (
          subst (λ m. MovedBytes uio_read m (done tt (request uio_read))) none_
            (returns (Moved-none k.mem kbuf ptr 0)))
    | inr go_on ↦
        rw (go_on, some_size go_on, all_done go_on small)
          (returns (memmove-Moved k.mem kbuf ptr size))
  ]
  two_rounds uio_write rounds small = elim (Bool-cases (n == 0 || (len == 0))) [
    | inl stop ↦
        let none_ : 0 ≡ size = ground (arith, stop) in
        rw stop (
          subst (λ m. MovedBytes uio_write m (done tt (request uio_write))) none_
            (returns (Moved-none k.mem ptr kbuf 0)))
    | inr go_on ↦
        rw (go_on, some_size go_on, all_done go_on small)
          (returns (memmove-Moved k.mem ptr kbuf size))
  ]

  -- `uiomove` between a kernel buffer and the request that `uio_kinit` has set up moves the smaller
  -- of the bytes asked for and the length, in the direction of the request, whatever the overlap of
  -- the two buffers, changes no other memory, and neither fails nor panics.
  pub uiomove-MovedBytes :
      (getas : Option ℕ) (rw_ : UioRw)
      → len < 2 ^ 32
      → MovedBytes rw_ (min n len) (uiomove ok getas ptr n (request rw_))
  unfolding uiomove kinit
  uiomove-MovedBytes getas rw_ small =
      subst (λ m. MovedBytes rw_ m (uiomove ok getas ptr n (request rw_))) min-size
        (subst (λ r. MovedBytes rw_ size (move_loop ok r ptr n (request rw_))) {x = suc (suc n)}
          {y = n + 1 + 1} (omega arith) (two_rounds rw_ n small))
