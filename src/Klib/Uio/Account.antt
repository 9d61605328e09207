-- ===== src/Klib/Uio/Account.antt =====
-- What `uiomove` moves is what it accounts for.
use ops_class.Base.{
  ℕ, zero, suc, ◌+◌, ◌-◌, ◌%◌, ◌^◌, ◌<◌, ◌≤◌, ◌≡◌, ◌≢◌, refl, sym, ◌∙◌, ap, true, false, ◌||◌, List,
  [], ◌∷◌, ◌==◌, ltb, if◌then◌else◌, length, Option, arith, Bool-cases, ne→==, min, subst, inl, inr,
}
use ops_class.Base.Run.{Run, efault, Ensures, returns, fails, bind}
use ops_class.Vm.Copyinout.{Kernel, Mapped}
use ops_class.Vm.Copyinout.Check.{ZeroOrFault, copyin-ZeroOrFault, copyout-ZeroOrFault}
use ops_class.Klib.Uio.{
  Iovec, UioSeg, uio_userispace, uio_userspace, uio_sysspace, UioRw, uio_read, uio_write, Uio, Io,
  in_io, space_ok, transfer, round, move_loop, uiomove,
}

abbrev pub total : List Iovec → ℕ
total [] = 0
total (v ∷ vs) = v.len + total vs

-- `moved` bytes have gone through the request.
pub record Accounted (before : Uio) (moved : ℕ) (u : Uio) : Type 0 where
  pub resid : u.resid + moved ≡ before.resid
  pub offset : u.offset ≡ before.offset + moved
  pub buffers : total u.iov ≡ u.resid
  pub segflg : u.segflg ≡ before.segflg
  pub rw_ : u.rw_ ≡ before.rw_
  pub space : u.space ≡ before.space

module _ (ok : Mapped) where
  transfer-ZeroOrFault :
      (seg : UioSeg) (rw_ : UioRw) (ptr base size : ℕ) (k : Kernel)
      → ZeroOrFault (transfer ok seg rw_ ptr base size k)
  unfolding transfer
  transfer-ZeroOrFault uio_sysspace uio_read ptr base size k = returns tt
  transfer-ZeroOrFault uio_sysspace uio_write ptr base size k = returns tt
  transfer-ZeroOrFault uio_userspace uio_read ptr base size k =
      copyout-ZeroOrFault ok ptr base size k
  transfer-ZeroOrFault uio_userspace uio_write ptr base size k =
      copyin-ZeroOrFault ok base ptr size k
  transfer-ZeroOrFault uio_userispace uio_read ptr base size k =
      copyout-ZeroOrFault ok ptr base size k
  transfer-ZeroOrFault uio_userispace uio_write ptr base size k =
      copyin-ZeroOrFault ok base ptr size k

  in_io_lem :
      (io : Io) {r : Run Kernel (Unit {0})}
      → ZeroOrFault r
      → Ensures
          (λ _ io'. io'.uio ≡ io.uio)
          (λ e io'. (e ≡ efault) × (io'.uio ≡ io.uio))
          (in_io io r)
  in_io_lem io (returns h) = returns refl
  in_io_lem io (fails h) = fails (h, refl)

  -- The outcomes with `want` bytes to go: all of them are moved, or a fault stops the call before.
  abbrev pub Accounts : Uio → ℕ → Run Io (Unit {0}) → Type 0
  Accounts before want =
      Ensures (λ _ io. Accounted before want io.uio)
        (λ e io. (e ≡ efault) × ((moved : ℕ) × (moved < want) × Accounted before moved io.uio))

  module _ (before : Uio) (small : before.resid < 2 ^ 32) where
    abbrev Loop : ℕ → Type 0
    Loop rounds =
        (ptr n moved : ℕ) (io : Io)
        → n + length io.uio.iov < rounds
        → Accounted before moved io.uio
        → Accounts before (moved + min n io.uio.resid) (move_loop ok rounds ptr n io)

    module _ (rounds : ℕ) (loop : Loop rounds) (ptr n moved : ℕ) (io : Io)
        (fuel : n + length io.uio.iov < suc rounds) (acc : Accounted before moved io.uio)
        (some_n : 0 < n) (some_resid : 0 < io.uio.resid) where
      module _ (v : Iovec) (rest : List Iovec) (e : io.uio.iov ≡ v ∷ rest) where
        abbrev size : ℕ
        size = if ltb n v.len then n else v.len

        all : v.len + total rest ≡ io.uio.resid
        all = sym (ap total e) ∙ acc.buffers

        rest_not_empty : v.len ≡ 0 → (length rest == 0) ≡ false
        rest_not_empty z = ne→== (length rest) 0 (go rest all)
          where
            go : (rest' : List Iovec) → v.len + total rest' ≡ io.uio.resid → length rest' ≢ 0
            go [] t l = omega arith
            go (w ∷ ws) t l = omega arith

        skip_lem :
            v.len ≡ 0
            → Accounts before
                (moved + min n io.uio.resid)
                (move_loop ok rounds ptr n (record io { uio = record (io.uio) { iov = rest } }))
        skip_lem z =
            loop ptr n moved (record io { uio = record (io.uio) { iov = rest } })
              (omega (arith, ap length e))
              (record {
                resid = acc.resid;
                offset = acc.offset;
                buffers = omega (arith, all);
                segflg = acc.segflg;
                rw_ = acc.rw_;
                space = acc.space;
              })

        -- The request after a round that has moved `size` bytes.
        abbrev moved_on : Io → Io
        moved_on io' = record io' {
          uio = record (io'.uio) {
            iov = record { base = v.base + size; len = v.len - size } ∷ rest;
            resid = (io'.uio.resid + 2 ^ 32 - size) % 2 ^ 32;
            offset = io'.uio.offset + size;
          };
        }

        below_n : size ≤ n
        below_n = ground arith

        below_len : size ≤ v.len
        below_len = ground arith

        left_over :
            (io' : Io)
            → io'.uio ≡ io.uio
            → (io'.uio.resid + 2 ^ 32 - size) % 2 ^ 32 ≡ io.uio.resid - size
        left_over io' same = omega (arith, ap (λ u. u.resid) same, below_len, all, acc.resid, small)

        next_lem :
            (io' : Io)
            → io'.uio ≡ io.uio
            → 0 < size
            → Accounts before
                (moved + min n io.uio.resid)
                (move_loop ok rounds (ptr + size) (n - size) (moved_on io'))
        next_lem io' same some_size =
            subst
              (λ w. Accounts before w (move_loop ok rounds (ptr + size) (n - size) (moved_on io')))
              (omega (arith, left_over io' same, below_n, below_len, all))
              (loop (ptr + size) (n - size) (moved + size) (moved_on io')
                (omega (arith, ap length e))
                (record {
                  resid = omega (arith, left_over io' same, acc.resid, below_len, all);
                  offset = omega (arith, ap (λ u. u.offset) same, acc.offset);
                  buffers = omega (arith, left_over io' same, below_len, all);
                  segflg = ap (λ u. u.segflg) same ∙ acc.segflg;
                  rw_ = ap (λ u. u.rw_) same ∙ acc.rw_;
                  space = ap (λ u. u.space) same ∙ acc.space;
                }))

      round_lem :
          (iov : List Iovec)
          → io.uio.iov ≡ iov
          → Accounts before
              (moved + min n io.uio.resid)
              (round ok ptr n (move_loop ok rounds) iov io)
      unfolding round
      round_lem [] e = let none_ = ap total e in absurd (omega (arith, acc.buffers))
      round_lem (v ∷ rest) e = elim (Bool-cases (size v rest e == 0)) [
        | inl nothing ↦
            let v_empty : v.len ≡ 0 = ground (arith, nothing) in
            rw (nothing, rest_not_empty v rest e v_empty) (skip_lem v rest e v_empty)
        | inr something ↦ rw something (
            bind
              (in_io_lem io (
                transfer-ZeroOrFault io.uio.segflg io.uio.rw_ ptr v.base (size v rest e) io.kernel))
              (λ _ io' same. next_lem v rest e io' same (ground (arith, something)))
              (λ err io' (bad, same).
                (bad, (moved, omega arith, subst (Accounted before moved) (sym same) acc))))
      ]

    loop_lem : (rounds : ℕ) → Loop rounds
    unfolding move_loop
    loop_lem zero ptr n moved io fuel acc = absurd (omega arith)
    loop_lem (suc rounds) ptr n moved io fuel acc =
        elim (Bool-cases (n == 0 || (io.uio.resid == 0))) [
          | inl stop ↦
              let e : moved ≡ moved + min n io.uio.resid = ground (arith, stop) in
              rw stop (returns (subst (λ m. Accounted before m io.uio) e acc))
          | inr go_on ↦ rw go_on (
              round_lem rounds (loop_lem rounds) ptr n moved io fuel acc (ground (arith, go_on))
                (ground (arith, go_on)) io.uio.iov refl)
        ]

    -- `uiomove` on a request that says truly how much room its buffers have neither panics nor runs on
    -- for ever. If it returns 0, the smaller of the bytes asked for and the room has been moved;
    -- otherwise it fails with EFAULT after fewer. In both cases what was moved has been added to the
    -- offset and taken off `uio_resid`, which still says truly how much room there is.
    pub uiomove-Accounts :
        (getas : Option ℕ) (ptr n : ℕ) (io : Io)
        → space_ok getas io.uio.segflg io.uio.space ≡ true
        → Accounted before 0 io.uio
        → Accounts before (min n before.resid) (uiomove ok getas ptr n io)
    unfolding uiomove
    uiomove-Accounts getas ptr n io space acc = rw space (
        subst (λ w. Accounts before w (move_loop ok (n + length io.uio.iov + 1) ptr n io))
          (omega (arith, acc.resid))
          (loop_lem (n + length io.uio.iov + 1) ptr n 0 io (omega arith) acc))
