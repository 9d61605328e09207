-- ===== src/Klib/Uio.antt =====
-- kern/lib/uio.c: moving data between a kernel buffer and the buffers of an I/O request.
pub mod Account
pub mod Bytes
use ops_class.Base.{
  ℕ, zero, suc, ◌+◌, ◌-◌, ◌%◌, ◌^◌, Bool, true, false, not, ◌||◌, List, [], ◌∷◌, ◌==◌, ltb,
  if◌then◌else◌, length, Option, none, some,
}
use ops_class.Base.Run.{Cmd, Run, done, fail, panicked, blocked, Errno, ◌>>=◌, ◌>>◌}
use ops_class.Libc.Memory.{Mem, memmove}
use ops_class.Vm.Copyinout.{Kernel, Mapped, copyin, copyout}

pub record Iovec : Type 0 where
  pub base : ℕ
  pub len : ℕ

pub data UioSeg : Type 0 where
  uio_userispace uio_userspace uio_sysspace : UioSeg

pub data UioRw : Type 0 where
  uio_read uio_write : UioRw

-- `struct uio`, `uio_iovcnt` being the length of `iov`; an address space is a number, or NULL.
pub record Uio : Type 0 where
  pub iov : List Iovec
  pub offset : ℕ
  pub resid : ℕ
  pub segflg : UioSeg
  pub rw_ : UioRw
  pub space : Option ℕ

-- The kernel's memory and the request.
pub record Io : Type 0 where
  pub kernel : Kernel
  pub uio : Uio

abbrev pub in_io : Io → Run Kernel (Unit {0}) → Run Io (Unit {0})
in_io io (done _ k) = done tt (record io { kernel = k })
in_io io (fail e k) = fail e (record io { kernel = k })
in_io io panicked = panicked
in_io io blocked = blocked

abbrev pub same_space : Option ℕ → Option ℕ → Bool
same_space none none = true
same_space (some a) (some b) = a == b
same_space none (some b) = false
same_space (some a) none = false

-- The first assertions; `getas` is what `proc_getas` returns.
abbrev pub space_ok : Option ℕ → UioSeg → Option ℕ → Bool
space_ok getas uio_sysspace space = same_space space none
space_ok getas uio_userspace space = same_space space getas
space_ok getas uio_userispace space = same_space space getas

module _ (ok : Mapped) where
  -- `memmove`, `copyout` or `copyin` of `size` bytes between `ptr` and the buffer at `base`.
  pub transfer : UioSeg → UioRw → ℕ → ℕ → ℕ → Cmd Kernel (Unit {0})
  transfer uio_sysspace uio_read ptr base size k =
      done tt (record k { mem = memmove base ptr size k.mem })
  transfer uio_sysspace uio_write ptr base size k =
      done tt (record k { mem = memmove ptr base size k.mem })
  transfer uio_userspace uio_read ptr base size k = copyout ok ptr base size k
  transfer uio_userspace uio_write ptr base size k = copyin ok base ptr size k
  transfer uio_userispace uio_read ptr base size k = copyout ok ptr base size k
  transfer uio_userispace uio_write ptr base size k = copyin ok base ptr size k

  -- The last lines of a round. `uio_resid` is a `size_t`.
  abbrev pub advance : Iovec → List Iovec → ℕ → Cmd Io (Unit {0})
  advance v rest size io = done tt (record io {
    uio = record (io.uio) {
      iov = record { base = v.base + size; len = v.len - size } ∷ rest;
      resid = (io.uio.resid + 2 ^ 32 - size) % 2 ^ 32;
      offset = io.uio.offset + size;
    };
  })

  -- One round, with the next rounds as `again`.
  pub round : ℕ → ℕ → (ℕ → ℕ → Cmd Io (Unit {0})) → List Iovec → Cmd Io (Unit {0})
  round ptr n again [] io = panicked
  round ptr n again (v ∷ rest) io =
      let size = if ltb n v.len then n else v.len in
      if size == 0
      then (if length rest == 0
          then panicked
          else again ptr n (record io { uio = record (io.uio) { iov = rest } }))
      else (do
        (λ io. in_io io (transfer io.uio.segflg io.uio.rw_ ptr v.base size io.kernel))
        advance v rest size
        again (ptr + size) (n - size))
          io

  -- The loop, with the rounds that it may run; `blocked` stands for a loop that is not done then.
  pub move_loop : ℕ → ℕ → ℕ → Cmd Io (Unit {0})
  move_loop zero ptr n io = blocked
  move_loop (suc rounds) ptr n io =
      let again = move_loop rounds in
      if n == 0 || (io.uio.resid == 0) then done tt io else round ptr n again io.uio.iov io

  unfoldable pub uiomove : Option ℕ → ℕ → ℕ → Cmd Io (Unit {0})
  unfolding move_loop round transfer
  uiomove getas ptr n io =
      if space_ok getas io.uio.segflg io.uio.space
      then move_loop (n + length io.uio.iov + 1) ptr n io
      else panicked

  -- The loop of `uiomovezeros`, with the rounds that it may run; `zero_buffer` is where its buffer stands.
  pub zeros_loop : Option ℕ → ℕ → ℕ → ℕ → Cmd Io (Unit {0})
  zeros_loop getas zero_buffer zero n io = blocked
  zeros_loop getas zero_buffer (suc rounds) n io =
      let amt = if ltb n 16 then n else 16 in
      let again = zeros_loop getas zero_buffer rounds (n - amt) in
      if n == 0 then done tt io else (uiomove getas zero_buffer amt >> again) io

  abbrev pub is_read : UioRw → Bool
  is_read uio_read = true
  is_read uio_write = false

  unfoldable pub uiomovezeros : Option ℕ → ℕ → ℕ → Cmd Io (Unit {0})
  unfolding zeros_loop
  uiomovezeros getas zero_buffer n io =
      if is_read io.uio.rw_ then zeros_loop getas zero_buffer (n + 1) n io else panicked

-- `uio_kinit`.
unfoldable pub kinit : ℕ → ℕ → ℕ → UioRw → Uio
kinit kbuf len pos rw_ = record {
  iov = record { base = kbuf; len = len } ∷ [];
  offset = pos;
  resid = len;
  segflg = uio_sysspace;
  rw_ = rw_;
  space = none;
}
