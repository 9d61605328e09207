-- ===== src/Vm/Dumbvm/Sharing.antt =====
-- `vm_fault` of kern/arch/mips/vm/dumbvm.c: the physical pages behind the pages of an address space.
use ops_class.Base.{ℕ, ◌+◌, ◌*◌, ◌%◌, ◌≤◌, ◌≡◌, ◌⊎◌, inl, inr, some, arith, subst}
use ops_class.Vm.Ram.{page_size}
use ops_class.Vm.Dumbvm.{AddrSpace, stack_pages, translate}
use ops_class.Vm.Dumbvm.Fault.{IsReady, Backed, Translated, translate-Translated}

-- The physical regions of an address space do not overlap.
abbrev pub Apart : ℕ → ℕ → ℕ → ℕ → Type 0
Apart p n q k = (p + n * page_size ≤ q) ⊎ (q + k * page_size ≤ p)

-- If the physical regions behind an address space are apart, no two pages of it share a physical
-- page.
pub Backed-injective :
    (as_ : AddrSpace) (page page' paddr : ℕ)
    → Apart as_.pbase1 as_.npages1 as_.pbase2 as_.npages2
    → Apart as_.pbase1 as_.npages1 as_.stackpbase stack_pages
    → Apart as_.pbase2 as_.npages2 as_.stackpbase stack_pages
    → Backed as_ page paddr
    → Backed as_ page' paddr
    → page ≡ page'
Backed-injective as_ page page' paddr a b c (inl h) (inl k) = omega arith
Backed-injective as_ page page' paddr a b c (inl h) (inr (inl k)) = omega arith
Backed-injective as_ page page' paddr a b c (inl h) (inr (inr k)) = omega arith
Backed-injective as_ page page' paddr a b c (inr (inl h)) (inl k) = omega arith
Backed-injective as_ page page' paddr a b c (inr (inl h)) (inr (inl k)) = omega arith
Backed-injective as_ page page' paddr a b c (inr (inl h)) (inr (inr k)) = omega arith
Backed-injective as_ page page' paddr a b c (inr (inr h)) (inl k) = omega arith
Backed-injective as_ page page' paddr a b c (inr (inr h)) (inr (inl k)) = omega arith
Backed-injective as_ page page' paddr a b c (inr (inr h)) (inr (inr k)) = omega arith

-- What `vm_fault` looks up, it finds in the right region, and no two pages of an address space whose
-- physical regions are apart are translated to the same physical page.
pub translate-injective :
    {as_ : AddrSpace} (page page' paddr : ℕ)
    → IsReady as_
    → Apart as_.pbase1 as_.npages1 as_.pbase2 as_.npages2
    → Apart as_.pbase1 as_.npages1 as_.stackpbase stack_pages
    → Apart as_.pbase2 as_.npages2 as_.stackpbase stack_pages
    → page % page_size ≡ 0
    → page' % page_size ≡ 0
    → translate as_ page ≡ some paddr
    → translate as_ page' ≡ some paddr
    → page ≡ page'
unfolding Translated
translate-injective {as_} page page' paddr r a b c at at' e e' =
    Backed-injective as_ page page' paddr a b c
      (subst (Translated as_ page) e (translate-Translated page r at)).0
      (subst (Translated as_ page') e' (translate-Translated page' r at')).0
