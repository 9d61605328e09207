-- ===== src/Vm/Space/Copy.antt =====
-- `as_copy`: the copy of an address space.
use ops_class.Base.{
  ℕ, ◌+◌, ◌*◌, ◌%◌, ◌^◌, ◌≤◌, ◌<◌, ◌≡◌, refl, sym, ◌∙◌, true, false, ◌&&◌, not, ltb, leb, ◌==◌,
  arith, ap, subst,
}
use ops_class.Base.Run.{Errno, enomem, Run, done, fail, panicked, blocked, Ensures, returns, fails}
use ops_class.Libc.Memory.Copy.{Moved}
use ops_class.Libc.Memory.Fill.{Filled}
use ops_class.Libc.Memory.Move.{memmove-Moved}
use ops_class.Vm.Ram.{Ram, page_size, kseg0}
use ops_class.Vm.Dumbvm.{AddrSpace, Machine, stack_pages, kvaddr, can_sleep}
use ops_class.Vm.Space.{
  Loading, copy_region, copy_pages, copied, as_copy, as_create, as_prepare_load,
}
use ops_class.Vm.Space.Load.{IsIdle, Prepared, NoRoom, SameButRam, placed, as_prepare_load-Prepared}
use ops_class.Vm.Space.Image.{SameBytes, copy_first, copy_second, copy_third, copy_rest}

-- The address space's pages are below the free memory of the machine.
pub record IsLoaded (as_ : AddrSpace) (m : Machine) : Type 0 where
  pub small : (as_.npages1 < 0x20000) × (as_.npages2 < 0x20000)
  pub below1 : as_.pbase1 + as_.npages1 * page_size ≤ m.ram.firstpaddr
  pub below2 : as_.pbase2 + as_.npages2 * page_size ≤ m.ram.firstpaddr
  pub below_stack : as_.stackpbase + stack_pages * page_size ≤ m.ram.firstpaddr

-- The copy `new` of `old`: the same regions, page for page with the same contents, in memory that
-- was free, and no other memory changed.
pub record Copied (old : AddrSpace) (m : Machine) (new : AddrSpace) (m' : Machine) : Type 0 where
  pub regions :
      new
      ≡ placed old m.ram.firstpaddr
          (m.ram.firstpaddr + old.npages1 * page_size)
          (m.ram.firstpaddr + (old.npages1 + old.npages2) * page_size)
  pub image1 :
      SameBytes m.mem m'.mem (new.pbase1 + kseg0) (old.pbase1 + kseg0) (old.npages1 * page_size)
  pub image2 :
      SameBytes m.mem m'.mem (new.pbase2 + kseg0) (old.pbase2 + kseg0) (old.npages2 * page_size)
  pub image_stack :
      SameBytes m.mem m'.mem
        (new.stackpbase + kseg0)
        (old.stackpbase + kseg0)
        (stack_pages * page_size)
  pub others :
      (a : ℕ)
      → (leb (m.ram.firstpaddr + kseg0) a
          && ltb a (
              m.ram.firstpaddr
              + kseg0
              + (old.npages1 * page_size + old.npages2 * page_size + stack_pages * page_size)))
        ≡ false
      → m'.mem a ≡ m.mem a
  pub taken :
      m'.ram.firstpaddr ≡ m.ram.firstpaddr + (old.npages1 + old.npages2 + stack_pages) * page_size

-- A copy_region within the reach of kseg0 moves the bytes of the pages.
copy_region-Moved :
    (new old n : ℕ) (m : Machine)
    → new < 0x2000_0000
    → old < 0x2000_0000
    → n < 0x20000
    → Moved m.mem (new + kseg0) (old + kseg0) 0 (n * page_size) (copy_region new old n m).mem
unfolding copy_region
copy_region-Moved new old n m low low' small =
    rw (at, at', size) (memmove-Moved m.mem (new + kseg0) (old + kseg0) (n * page_size))
  where
    at : kvaddr new ≡ new + kseg0
    at = omega arith

    at' : kvaddr old ≡ old + kseg0
    at' = omega arith

    size : n * page_size % 2 ^ 32 ≡ n * page_size
    size = omega arith

copy_region_ram : (new old n : ℕ) (m : Machine) → (copy_region new old n m).ram ≡ m.ram
unfolding copy_region
copy_region_ram new old n m = refl

module _ (old : AddrSpace) (m : Machine) (o : IsLoaded old m) where
  abbrev f : ℕ
  f = m.ram.firstpaddr

  abbrev start : Loading
  start = record {
    space =
        placed
          (record {
            vbase1 = old.vbase1;
            pbase1 = 0;
            npages1 = old.npages1;
            vbase2 = old.vbase2;
            pbase2 = 0;
            npages2 = old.npages2;
            stackpbase = 0;
          })
          0 0 0;
    machine = m;
  }

  copy_pages-Copied :
      (l' : Loading)
      → IsIdle m
      → Prepared start l'
      → Copied old m l'.space (copy_pages l'.space old l'.machine)
  unfolding copy_pages
  copy_pages-Copied l' idle p = rw p.space (record {
    regions = refl;
    image1 =
        copy_first m.mem m1.mem m2.mem m3.mem m4.mem d s1 s2 s3 a b c zeroed move1 move2 move3
          below1 below2 below3;
    image2 =
        subst (λ k. SameBytes m.mem m4.mem k s2 b) at2
          (copy_second m.mem m1.mem m2.mem m3.mem m4.mem d s1 s2 s3 a b c zeroed move1 move2 move3
            below1 below2 below3);
    image_stack =
        subst (λ k. SameBytes m.mem m4.mem k s3 c) at3
          (copy_third m.mem m1.mem m2.mem m3.mem m4.mem d s1 s2 s3 a b c zeroed move1 move2 move3
            below1 below2 below3);
    others =
        copy_rest m.mem m1.mem m2.mem m3.mem m4.mem d s1 s2 s3 a b c zeroed move1 move2 move3 below1
          below2 below3;
    taken =
        ap Ram.firstpaddr (
          copy_region_ram (f + (old.npages1 + old.npages2) * page_size) old.stackpbase stack_pages
            m3
          ∙ (copy_region_ram (f + a) old.pbase2 old.npages2 m2
              ∙ copy_region_ram f old.pbase1 old.npages1 m1))
        ∙ p.next;
  })
    where
      d : ℕ
      d = f + kseg0

      s1 : ℕ
      s1 = old.pbase1 + kseg0

      s2 : ℕ
      s2 = old.pbase2 + kseg0

      s3 : ℕ
      s3 = old.stackpbase + kseg0

      a : ℕ
      a = old.npages1 * page_size

      b : ℕ
      b = old.npages2 * page_size

      c : ℕ
      c = stack_pages * page_size

      m1 : Machine
      m1 = l'.machine

      m2 : Machine
      m2 = copy_region f old.pbase1 old.npages1 m1

      m3 : Machine
      m3 = copy_region (f + a) old.pbase2 old.npages2 m2

      m4 : Machine
      m4 = copy_region (f + (old.npages1 + old.npages2) * page_size) old.stackpbase stack_pages m3

      at2 : d + a ≡ f + a + kseg0
      at2 = omega arith

      at3 : d + a + b ≡ f + (old.npages1 + old.npages2) * page_size + kseg0
      at3 = omega arith

      high : f + a + b + c ≤ 0x2000_0000
      high = omega (arith, p.next, p.valid.ordered, p.valid.reach)

      below1 : s1 + a ≤ d
      below1 = omega (arith, o.below1)

      below2 : s2 + b ≤ d
      below2 = omega (arith, o.below2)

      below3 : s3 + c ≤ d
      below3 = omega (arith, o.below_stack)

      zeroed : Filled m.mem d 0 (a + b + c) m1.mem
      zeroed = subst (λ k. Filled m.mem d 0 k m1.mem) (omega arith) p.zeroed

      move1 : Moved m1.mem d s1 0 a m2.mem
      move1 =
          copy_region-Moved f old.pbase1 old.npages1 m1 (omega (arith, high))
            (omega (arith, o.below1, high)) o.small.0

      move2 : Moved m2.mem (d + a) s2 0 b m3.mem
      move2 =
          subst (λ k. Moved m2.mem k s2 0 b m3.mem) (sym at2)
            (copy_region-Moved (f + a) old.pbase2 old.npages2 m2 (omega (arith, high))
              (omega (arith, o.below2, high)) o.small.1)

      move3 : Moved m3.mem (d + a + b) s3 0 c m4.mem
      move3 =
          subst (λ k. Moved m3.mem k s3 0 c m4.mem) (sym at3)
            (copy_region-Moved (f + (old.npages1 + old.npages2) * page_size) old.stackpbase
              stack_pages m3 (omega (arith, high)) (omega (arith, o.below_stack, high))
              (omega arith))

  -- No room for the copy: the free memory that was taken is lost, and nothing else has changed.
  abbrev pub NoCopy : Errno → Machine → Type 0
  NoCopy e m' =
      (e ≡ enomem)
      × SameButRam m m'
      × (m.ram.lastpaddr < f + (old.npages1 + old.npages2 + stack_pages) * page_size)

  copied-Copied :
      (r : Run Loading (Unit {0}))
      → IsIdle m
      → Ensures (λ _ l'. Prepared start l') (NoRoom start) r
      → Ensures (Copied old m) NoCopy (copied old r)
  unfolding copied
  copied-Copied (done _ l') idle (returns p) =
      let set_ : (not (l'.space.pbase1 == 0)
            && (not (l'.space.pbase2 == 0) && not (l'.space.stackpbase == 0)))
          ≡ true =
        rw p.space (ground (arith, idle.valid.above_zero)) in
      rw set_ (returns (copy_pages-Copied l' idle p))
  copied-Copied (fail e l') idle (fails (why, same, full)) =
      let sleepy : can_sleep l'.machine ≡ true = rw same idle.sleepy in
      rw sleepy (fails (refl, same, full))
  copied-Copied panicked idle r = elim r [ ]
  copied-Copied blocked idle r = elim r [ ]

  -- On an idle machine, `as_copy` of an address space whose pages are in use gives, if kmalloc
  -- succeeds, a copy with the same contents in other memory, or ENOMEM if there is no room.
  pub as_copy-Copied : IsIdle m → Ensures (Copied old m) NoCopy (as_copy true old m)
  unfolding as_copy as_create
  as_copy-Copied idle = rw idle.sleepy (
      copied-Copied (as_prepare_load start) idle (
        as_prepare_load-Prepared start (record { unloaded = (refl, refl, refl); small = o.small })
          idle))
