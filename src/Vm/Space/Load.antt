-- ===== src/Vm/Space/Load.antt =====
-- `as_prepare_load` and `as_copy`: where the pages of an address space come from.
use ops_class.Base.{
  ℕ, ◌+◌, ◌*◌, ◌<◌, ◌≡◌, ◌≢◌, refl, sym, ◌∙◌, inl, inr, true, ◌&&◌, ◌==◌, arith, eq→==, ne→==, ap,
  ap₂, subst,
}
use ops_class.Base.Run.{Errno, enomem, Ensures, returns, fails, bind}
use ops_class.Libc.Memory.Fill.{Filled}
use ops_class.Vm.Ram.{Ram, page_size, kseg0, stealmem}
use ops_class.Vm.Ram.Laws.{IsValid, Stolen, stealmem-Stolen}
use ops_class.Vm.Dumbvm.{AddrSpace, Machine, stack_pages, can_sleep, getppages}
use ops_class.Vm.Space.Zero.{zero_three, zero_three-Filled}
use ops_class.Vm.Space.{
  Loading, get_pages, take_pages, zero_all, load_pages, as_prepare_load, set_pbase1, set_pbase2,
  set_stackpbase,
}

-- `n` pages have been taken from the bottom of free memory, and their address stored.
pub record Taken (store : ℕ → AddrSpace → AddrSpace) (n : ℕ) (l l' : Loading) : Type 0 where
  pub stored : l'.space ≡ store l.machine.ram.firstpaddr l.space
  pub next : l'.machine.ram.firstpaddr ≡ l.machine.ram.firstpaddr + n * page_size
  pub last : l'.machine.ram.lastpaddr ≡ l.machine.ram.lastpaddr
  pub valid : IsValid l'.machine.ram
  pub same : l'.machine ≡ record l.machine { ram = l'.machine.ram }

-- There was no room for `n` pages.
abbrev pub Refused : ℕ → Loading → Errno → Loading → Type 0
Refused n l e l' =
    (e ≡ enomem)
    × (l'.machine ≡ l.machine)
    × (l.machine.ram.lastpaddr < l.machine.ram.firstpaddr + n * page_size)

get_pages-Taken :
    (store : ℕ → AddrSpace → AddrSpace) (n : ℕ) (l : Loading)
    → IsValid l.machine.ram
    → n < 0x40000
    → Ensures (λ _ l'. Taken store n l l') (Refused n l) (get_pages store n l)
unfolding get_pages take_pages getppages
get_pages-Taken store n l v small = go (stealmem n l.machine.ram) (stealmem-Stolen n v small)
  where
    go :
        (r : ℕ × Ram)
        → Stolen n l.machine.ram r
        → Ensures
            (λ _ l'. Taken store n l l')
            (Refused n l)
            (take_pages store (r.0, record l.machine { ram = r.1 }) l.space)
    go (addr, ram) (inl (zero_, kept, full)) =
        rw (eq→== addr 0 zero_) (fails (refl, ap (λ r. record l.machine { ram = r }) kept, full))
    go (addr, ram) (inr (at, next, last, v')) =
        let some_ : addr ≢ 0 = λ z. omega (arith, v.above_zero, at, z) in
        rw (ne→== addr 0 some_) (
          returns (record {
            stored = ap (λ a. store a l.space) at;
            next = next ∙ ap (λ a. a + n * page_size) at;
            last = last;
            valid = v';
            same = refl;
          }))

-- An address space that is loaded: its two regions and its stack stand one after the other in what
-- was the bottom of free memory, are free no more, and hold zeros; no other memory and nothing else
-- of the machine or of the address space has changed.
pub record Prepared (l l' : Loading) : Type 0 where
  pub space : l'.space ≡ record l.space {
    pbase1 = l.machine.ram.firstpaddr;
    pbase2 = l.machine.ram.firstpaddr + l.space.npages1 * page_size;
    stackpbase = l.machine.ram.firstpaddr + (l.space.npages1 + l.space.npages2) * page_size;
  }
  pub next :
      l'.machine.ram.firstpaddr
      ≡ l.machine.ram.firstpaddr + (l.space.npages1 + l.space.npages2 + stack_pages) * page_size
  pub last : l'.machine.ram.lastpaddr ≡ l.machine.ram.lastpaddr
  pub valid : IsValid l'.machine.ram
  pub same : l'.machine ≡ record l.machine { ram = l'.machine.ram; mem = l'.machine.mem }
  pub zeroed :
      Filled l.machine.mem
        (l.machine.ram.firstpaddr + kseg0)
        0
        ((l.space.npages1 + l.space.npages2 + stack_pages) * page_size)
        l'.machine.mem

-- Only the free memory differs.
abbrev pub SameButRam : Machine → Machine → Type 0
SameButRam m m' = m' ≡ record m { ram = m'.ram }

SameButRam-step :
    (m : Machine) {m' m'' : Machine} → SameButRam m m' → SameButRam m' m'' → SameButRam m m''
SameButRam-step m {m'} {m''} h k =
    k ∙ ap {A = Machine} {B = Machine} (λ x. record x { ram = m''.ram }) h

SameButRam-eq : (m : Machine) {m' m'' : Machine} → SameButRam m m' → m'' ≡ m' → SameButRam m m''
SameButRam-eq m h e = subst (SameButRam m) (sym e) h

-- There was no room for the regions and the stack: the memory taken is lost, nothing is written.
abbrev pub NoRoom : Loading → Errno → Loading → Type 0
NoRoom l e l' =
    (e ≡ enomem)
    × SameButRam l.machine l'.machine
    × (l.machine.ram.lastpaddr
        < l.machine.ram.firstpaddr + (l.space.npages1 + l.space.npages2 + stack_pages) * page_size)

-- A machine on which the caller may sleep, with valid free memory.
pub record IsIdle (m : Machine) : Type 0 where
  pub valid : IsValid m.ram
  pub sleepy : can_sleep m ≡ true

-- Regions defined and not loaded.
pub record IsDefined (as_ : AddrSpace) : Type 0 where
  pub unloaded : (as_.pbase1 ≡ 0) × (as_.pbase2 ≡ 0) × (as_.stackpbase ≡ 0)
  pub small : (as_.npages1 < 0x20000) × (as_.npages2 < 0x20000)

-- The address space with its regions at `p1`, `p2` and `p3`.
abbrev pub placed : AddrSpace → ℕ → ℕ → ℕ → AddrSpace
placed as_ p1 p2 p3 = record as_ { pbase1 = p1; pbase2 = p2; stackpbase = p3 }

module _ (l : Loading) (d : IsDefined l.space) where
  zero_all-Prepared :
      (l1 l2 l3 : Loading)
      → Taken set_pbase1 l.space.npages1 l l1
      → Taken set_pbase2 l.space.npages2 l1 l2
      → Taken set_stackpbase stack_pages l2 l3
      → Ensures (λ _ l'. Prepared l l') (NoRoom l) (zero_all l3)
  unfolding zero_all
  zero_all-Prepared l1 l2 l3 t1 t2 t3 = returns prepared
    where
      p1 : ℕ
      p1 = l.machine.ram.firstpaddr

      p2 : ℕ
      p2 = p1 + l.space.npages1 * page_size

      p3 : ℕ
      p3 = p1 + (l.space.npages1 + l.space.npages2) * page_size

      at : l3.space ≡ placed l.space p1 p2 p3
      at =
          t3.stored
          ∙ (ap (λ s. set_stackpbase l2.machine.ram.firstpaddr s)
                (t2.stored ∙ ap (λ s. set_pbase2 l1.machine.ram.firstpaddr s) t1.stored)
              ∙ ap₂ (λ p q. placed l.space l.machine.ram.firstpaddr p q) t1.next
                  (t2.next ∙ omega (arith, t1.next)))

      kept : l3.machine ≡ record l.machine { ram = l3.machine.ram }
      kept = SameButRam-step l.machine (SameButRam-step l.machine t1.same t2.same) t3.same

      after : Machine
      after =
          zero_three l3.space.pbase1 l3.space.npages1 l3.space.pbase2 l3.space.npages2
            l3.space.stackpbase l3.machine

      z :
          (after ≡ record l3.machine { mem = after.mem })
          × Filled l3.machine.mem
              (p1 + kseg0)
              0
              ((l.space.npages1 + l.space.npages2 + stack_pages) * page_size)
              after.mem
      z = rw at (
          zero_three-Filled p1 l.space.npages1 p2 l.space.npages2 p3 l3.machine refl (omega arith)
            (omega (arith, t1.next, t2.next, t3.next, t3.valid.ordered, t3.valid.reach)))

      ram_kept : after.ram ≡ l3.machine.ram
      ram_kept = ap Machine.ram z.0

      prepared : Prepared l (record { space = l3.space; machine = after })
      prepared = record {
        space = at;
        next = ap Ram.firstpaddr ram_kept ∙ omega (arith, t1.next, t2.next, t3.next);
        last = ap Ram.lastpaddr ram_kept ∙ (t3.last ∙ (t2.last ∙ t1.last));
        valid = subst IsValid (sym ram_kept) t3.valid;
        same =
            z.0
            ∙ (ap {A = Machine} {B = Machine} (λ m. record m { mem = after.mem }) kept
                ∙ ap {A = Ram} {B = Machine} (λ r. record l.machine { ram = r; mem = after.mem })
                    (sym ram_kept));
        zeroed =
            subst
              (λ mem.
                Filled mem (p1 + kseg0) 0
                  ((l.space.npages1 + l.space.npages2 + stack_pages) * page_size) after.mem)
              (ap Machine.mem kept) z.1;
      }

  load_pages-Prepared :
      IsValid l.machine.ram
      → Ensures (λ _ l'. Prepared l l') (NoRoom l) (load_pages l.space.npages1 l.space.npages2 l)
  unfolding load_pages
  load_pages-Prepared v =
      bind (get_pages-Taken set_pbase1 l.space.npages1 l v (omega (arith, d.small.0)))
        (λ _ l1 t1.
          bind (get_pages-Taken set_pbase2 l.space.npages2 l1 t1.valid (omega (arith, d.small.1)))
            (λ _ l2 t2.
              bind (get_pages-Taken set_stackpbase stack_pages l2 t2.valid (omega arith))
                (λ _ l3 t3. zero_all-Prepared l1 l2 l3 t1 t2 t3)
                (λ e l3 r. (
                  r.0,
                  SameButRam-eq l.machine (SameButRam-step l.machine t1.same t2.same) r.1,
                  omega (arith, r.2, t1.next, t2.next, t1.last, t2.last),
                )))
            (λ e l2 r.
              (r.0, SameButRam-eq l.machine t1.same r.1, omega (arith, r.2, t1.next, t1.last))))
        (λ e l1 r. (r.0, SameButRam-eq l.machine refl r.1, omega (arith, r.2)))

  -- On an idle machine `as_prepare_load` of regions of less than half a gigabyte does not panic. It
  -- returns 0 with the regions and the stack loaded, or ENOMEM if there is no room for all of them.
  pub as_prepare_load-Prepared :
      IsIdle l.machine → Ensures (λ _ l'. Prepared l l') (NoRoom l) (as_prepare_load l)
  unfolding as_prepare_load
  as_prepare_load-Prepared idle =
      let new : (l.space.pbase1 == 0 && (l.space.pbase2 == 0 && l.space.stackpbase == 0)) ≡ true =
        ground (arith, d.unloaded) in
      rw (new, idle.sleepy) (load_pages-Prepared idle.valid)
