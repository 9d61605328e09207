-- ===== src/Vm/Space.antt =====
-- kern/arch/mips/vm/dumbvm.c: the address spaces, from their creation to the copy at a fork.
pub mod Region
mod Zero
pub mod Load
mod Image
pub mod Copy
use ops_class.Base.{
  ℕ, zero, suc, ◌+◌, ◌-◌, ◌*◌, ◌/◌, ◌%◌, ◌^◌, Bool, true, false, ◌&&◌, ◌||◌, not, Option, none,
  some, List, [], ◌∷◌, ltb, leb, ◌==◌, if◌then◌else◌, set, get_or,
}
use ops_class.Base.Run.{
  Errno, efault, einval, enosys, enomem, Checked, value, panic, Cmd, Run, done, fail, panicked,
  blocked, ◌>>=◌, ◌>>◌,
}
use ops_class.Libc.Memory.{Mem, bzero, memmove}
use ops_class.Vm.Ram.{Ram, page_size, kseg0, stealmem}
use ops_class.Vm.Dumbvm.{
  AddrSpace, Entry, Machine, stack_pages, userstack, page_of, ◌+32◌, kvaddr, can_sleep, getppages,
}

abbrev pub empty_space : AddrSpace
empty_space = record {
  vbase1 = 0;
  pbase1 = 0;
  npages1 = 0;
  vbase2 = 0;
  pbase2 = 0;
  npages2 = 0;
  stackpbase = 0;
}

-- `as_create`; the argument says whether kmalloc succeeds.
unfoldable pub as_create : Bool → Option AddrSpace
as_create got = if got then some empty_space else none

-- The loop of `as_activate` over the TLB, from the entry `i` on.
pub invalidate : ℕ → List Entry → List Entry
invalidate i [] = []
invalidate i (e ∷ tlb) = ((0x80000 + i) * 2 ^ 12, 0) ∷ invalidate (i + 1) tlb

unfoldable pub as_activate : Option AddrSpace → Machine → Machine
unfolding invalidate
as_activate none m = m
as_activate (some as_) m = record m { tlb = invalidate 0 m.tlb }

-- The protection arguments are not used. `size_t` is 32 bits wide.
unfoldable pub as_define_region : Machine → ℕ → ℕ → Cmd AddrSpace (Unit {0})
as_define_region m vaddr sz as_ =
    let sz = sz +32 (vaddr % page_size) in
    let vaddr = page_of vaddr in
    let sz = page_of ((sz + page_size - 1) % 2 ^ 32) in
    let npages = sz / page_size in
    if not (can_sleep m)
    then panicked
    else if as_.vbase1 == 0
    then done tt (record as_ { vbase1 = vaddr; npages1 = npages })
    else if as_.vbase2 == 0
    then done tt (record as_ { vbase2 = vaddr; npages2 = npages })
    else fail enosys as_

-- `as_zero_region`.
pub zero_region : ℕ → ℕ → Machine → Machine
zero_region paddr npages m = record m {
  mem = bzero (kvaddr paddr) (npages * page_size % 2 ^ 32) m.mem;
}

-- An address space being loaded, on the machine.
pub record Loading : Type 0 where
  pub space : AddrSpace
  pub machine : Machine

abbrev pub set_pbase1 : ℕ → AddrSpace → AddrSpace
set_pbase1 p as_ = record as_ { pbase1 = p }

abbrev pub set_pbase2 : ℕ → AddrSpace → AddrSpace
set_pbase2 p as_ = record as_ { pbase2 = p }

abbrev pub set_stackpbase : ℕ → AddrSpace → AddrSpace
set_stackpbase p as_ = record as_ { stackpbase = p }

-- `as->field = getppages(n); if (as->field == 0) { return ENOMEM; }`
pub take_pages : (ℕ → AddrSpace → AddrSpace) → ℕ × Machine → AddrSpace → Run Loading (Unit {0})
take_pages store (addr, m) as_ =
    let l : Loading = record { space = store addr as_; machine = m } in
    if addr == 0 then fail enomem l else done tt l

pub zero_all : Cmd Loading (Unit {0})
zero_all l =
    let as_ = l.space in
    let m1 = zero_region as_.pbase1 as_.npages1 l.machine in
    let m2 = zero_region as_.pbase2 as_.npages2 m1 in
    done tt (record l { machine = zero_region as_.stackpbase stack_pages m2 })

pub get_pages : (ℕ → AddrSpace → AddrSpace) → ℕ → Cmd Loading (Unit {0})
unfolding take_pages getppages
get_pages store npages l = take_pages store (getppages npages l.machine) l.space

-- The pages of the two regions and of the stack, and the zeros.
pub load_pages : ℕ → ℕ → Cmd Loading (Unit {0})
load_pages npages1 npages2 = do
  get_pages set_pbase1 npages1
  get_pages set_pbase2 npages2
  get_pages set_stackpbase stack_pages
  zero_all

unfoldable pub as_prepare_load : Cmd Loading (Unit {0})
as_prepare_load l =
    if not (l.space.pbase1 == 0 && (l.space.pbase2 == 0 && l.space.stackpbase == 0))
    then panicked
    else if not (can_sleep l.machine)
    then panicked
    else load_pages l.space.npages1 l.space.npages2 l

-- `as_define_stack`.
unfoldable pub as_define_stack : AddrSpace → Checked ℕ
as_define_stack as_ = if not (as_.stackpbase == 0) then value userstack else panic

-- The three memmoves of `as_copy`.
pub copy_region : ℕ → ℕ → ℕ → Machine → Machine
copy_region new old npages m = record m {
  mem = memmove (kvaddr new) (kvaddr old) (npages * page_size % 2 ^ 32) m.mem;
}

pub copy_pages : AddrSpace → AddrSpace → Machine → Machine
unfolding copy_region
copy_pages new old m = copy_region new.stackpbase old.stackpbase stack_pages (
    copy_region new.pbase2 old.pbase2 old.npages2 (copy_region new.pbase1 old.pbase1 old.npages1 m))

-- What `as_copy` does once `as_prepare_load` has returned.
pub copied : AddrSpace → Run Loading (Unit {0}) → Run Machine AddrSpace
copied old (done _ l) =
    if not (l.space.pbase1 == 0) && (not (l.space.pbase2 == 0) && not (l.space.stackpbase == 0))
    then done l.space (copy_pages l.space old l.machine)
    else panicked
copied old (fail e l) = if can_sleep l.machine then fail enomem l.machine else panicked
copied old panicked = panicked
copied old blocked = blocked

unfoldable pub as_copy : Bool → AddrSpace → Cmd Machine AddrSpace
as_copy got old m = if not (can_sleep m) then panicked else elim (as_create got) [
  | none ↦ fail enomem m
  | some new ↦ copied old (
      as_prepare_load (record {
        space = record new {
          vbase1 = old.vbase1;
          npages1 = old.npages1;
          vbase2 = old.vbase2;
          npages2 = old.npages2;
        };
        machine = m;
      }))
]
