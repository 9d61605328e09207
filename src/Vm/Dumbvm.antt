-- ===== src/Vm/Dumbvm.antt =====
-- kern/arch/mips/vm/dumbvm.c: two regions and a stack of fixed size, contiguous in physical memory.
pub mod Fault
pub mod Sharing
use ops_class.Base.{
  ℕ, zero, suc, ◌+◌, ◌-◌, ◌*◌, ◌/◌, ◌%◌, ◌^◌, Bool, true, false, ◌&&◌, ◌||◌, not, Option, none,
  some, List, [], ◌∷◌, ltb, leb, ◌==◌, if◌then◌else◌, set, get_or,
}
use ops_class.Base.Run.{
  Errno, efault, einval, enosys, enomem, Checked, value, panic, Cmd, Run, done, fail, panicked,
  blocked, ◌>>=◌, ◌>>◌,
}
use ops_class.Libc.Memory.{Mem, bzero, memmove}
use ops_class.Vm.Ram.{Ram, page_size, kseg0, stealmem}

-- `struct addrspace`.
pub record AddrSpace : Type 0 where
  pub vbase1 : ℕ
  pub pbase1 : ℕ
  pub npages1 : ℕ
  pub vbase2 : ℕ
  pub pbase2 : ℕ
  pub npages2 : ℕ
  pub stackpbase : ℕ

-- An entry of the TLB: `ehi` and `elo`.
abbrev pub Entry : Type 0
Entry = ℕ × ℕ

-- The machine as dumbvm meets it. Memory is read and written at kseg0 addresses.
pub record Machine : Type 0 where
  pub ram : Ram
  pub mem : Mem
  pub tlb : List Entry
  -- `curcpu->c_spinlocks` and `curthread->t_in_interrupt`
  pub spinlocks : ℕ
  pub in_interrupt : Bool

abbrev pub stack_pages : ℕ
stack_pages = 18

abbrev pub userstack : ℕ
userstack = 0x8000_0000

-- `addr & PAGE_FRAME`.
abbrev pub page_of : ℕ → ℕ
page_of addr = addr / page_size * page_size

-- Additions of 32-bit numbers.
infixl 65 ◌+32◌
abbrev pub ◌+32◌ : ℕ → ℕ → ℕ
a +32 b = (a + b) % 2 ^ 32

abbrev pub kvaddr : ℕ → ℕ
kvaddr paddr = paddr +32 kseg0

-- `dumbvm_can_sleep` (after boot), an assertion.
abbrev pub can_sleep : Machine → Bool
can_sleep m = m.spinlocks == 0 && not m.in_interrupt

-- `getppages`; the spinlock around it makes it one step.
unfoldable pub getppages : ℕ → Machine → ℕ × Machine
getppages npages m = let (addr, ram) = stealmem npages m.ram in (addr, record m { ram = ram })

-- `alloc_kpages`.
unfoldable pub alloc_kpages : ℕ → Machine → Checked (ℕ × Machine)
unfolding getppages
alloc_kpages npages m =
    if not (can_sleep m)
    then panic
    else let (pa, m') = getppages npages m in
      if pa == 0 then value (0, m') else value (kvaddr pa, m')

-- The assertions of `vm_fault` on the address space.
abbrev pub set_up : AddrSpace → Bool
set_up as_ =
    not (as_.vbase1 == 0)
    && (not (as_.pbase1 == 0)
        && (not (as_.npages1 == 0)
            && (not (as_.vbase2 == 0)
                && (not (as_.pbase2 == 0)
                    && (not (as_.npages2 == 0)
                        && (not (as_.stackpbase == 0)
                            && (page_of as_.vbase1 == as_.vbase1
                                && (page_of as_.pbase1 == as_.pbase1
                                    && (page_of as_.vbase2 == as_.vbase2
                                        && (page_of as_.pbase2 == as_.pbase2
                                            && (page_of as_.stackpbase == as_.stackpbase)))))))))))

-- The physical page behind the page `addr`, `none` for EFAULT.
unfoldable pub translate : AddrSpace → ℕ → Option ℕ
translate as_ addr =
    let vtop1 = as_.vbase1 +32 (as_.npages1 * page_size % 2 ^ 32) in
    let vtop2 = as_.vbase2 +32 (as_.npages2 * page_size % 2 ^ 32) in
    let stackbase = userstack - stack_pages * page_size in
    if leb as_.vbase1 addr && ltb addr vtop1
    then some (addr - as_.vbase1 +32 as_.pbase1)
    else if leb as_.vbase2 addr && ltb addr vtop2
    then some (addr - as_.vbase2 +32 as_.pbase2)
    else if leb stackbase addr && ltb addr userstack
    then some (addr - stackbase +32 as_.stackpbase)
    else none

-- `elo & TLBLO_VALID`.
abbrev pub is_valid : Entry → Bool
is_valid (ehi, elo) = elo / 0x200 % 2 == 1

-- `paddr | TLBLO_DIRTY | TLBLO_VALID`; `paddr` has no bits below the page.
abbrev pub entry : ℕ → ℕ → Entry
entry addr paddr = (addr, paddr + 0x400 + 0x200)

-- The loop over the TLB's entries: the first that is not valid takes the new entry.
pub load_tlb : Entry → List Entry → Option (List Entry)
load_tlb e [] = none
load_tlb e (old ∷ tlb) =
    let rest = load_tlb e tlb in
    if is_valid old
    then elim rest [ none ↦ none | some tlb' ↦ some (old ∷ tlb') ]
    else some (e ∷ tlb)

pub data FaultType : Type 0 where
  read write readonly other : FaultType

-- The end of the loop: out of entries, or loaded.
pub loaded : Machine → Option (List Entry) → Run Machine (Unit {0})
loaded m none = fail efault m
loaded m (some tlb) = done tt (record m { tlb = tlb })

pub resolved : ℕ → Machine → Option ℕ → Run Machine (Unit {0})
resolved addr m none = fail efault m
resolved addr m (some paddr) =
    if not (page_of paddr == paddr) then panicked else loaded m (load_tlb (entry addr paddr) m.tlb)

pub fault_at : AddrSpace → ℕ → Cmd Machine (Unit {0})
fault_at as_ addr m = if not (set_up as_) then panicked else resolved addr m (translate as_ addr)

-- `curas` is `none` without a process or an address space.
unfoldable pub vm_fault : FaultType → ℕ → Option AddrSpace → Cmd Machine (Unit {0})
unfolding fault_at resolved loaded translate load_tlb
vm_fault readonly addr curas m = panicked
vm_fault other addr curas m = fail einval m
vm_fault read addr none m = fail efault m
vm_fault read addr (some as_) m = fault_at as_ (page_of addr) m
vm_fault write addr none m = fail efault m
vm_fault write addr (some as_) m = fault_at as_ (page_of addr) m
