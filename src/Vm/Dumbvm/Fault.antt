-- ===== src/Vm/Dumbvm/Fault.antt =====
-- `vm_fault`: which faults are resolved, with which page, and what becomes of the TLB.
use ops_class.Base.{
  ℕ, zero, suc, ◌+◌, ◌-◌, ◌*◌, ◌%◌, ◌^◌, ◌≤◌, ◌<◌, ◌≡◌, refl, ◌∙◌, ◌⊎◌, inl, inr, true, false, ◌&&◌,
  Option, none, some, List, [], ◌∷◌, ltb, leb, set, arith, Bool-cases, eq→==, ap,
}
use ops_class.Base.Run.{efault, Run, Ensures, returns, fails}
use ops_class.Vm.Ram.{page_size}
use ops_class.Vm.Dumbvm.{
  AddrSpace, Entry, Machine, stack_pages, userstack, page_of, set_up, translate, is_valid, entry,
  load_tlb, read, write, fault_at, vm_fault, loaded, resolved,
}

-- The region of `n` pages at `base` contains `addr`.
abbrev pub Within : ℕ → ℕ → ℕ → Type 0
Within base n addr = (base ≤ addr) × (addr < base + n * page_size)

-- An address space that is ready to run: whole pages, in user space and in physical memory.
pub record IsReady (as_ : AddrSpace) : Type 0 where
  pub pages1 : (as_.vbase1 % page_size ≡ 0) × (as_.pbase1 % page_size ≡ 0)
  pub pages2 : (as_.vbase2 % page_size ≡ 0) × (as_.pbase2 % page_size ≡ 0)
  pub stack : as_.stackpbase % page_size ≡ 0
  pub positive1 : (0 < as_.vbase1) × (0 < as_.pbase1) × (0 < as_.npages1)
  pub positive2 : (0 < as_.vbase2) × (0 < as_.pbase2) × (0 < as_.npages2)
  pub positive_stack : 0 < as_.stackpbase
  pub user1 : as_.vbase1 + as_.npages1 * page_size ≤ userstack
  pub user2 : as_.vbase2 + as_.npages2 * page_size ≤ userstack
  pub phys1 : as_.pbase1 + as_.npages1 * page_size ≤ userstack
  pub phys2 : as_.pbase2 + as_.npages2 * page_size ≤ userstack
  pub phys_stack : as_.stackpbase + stack_pages * page_size ≤ userstack

abbrev pub stackbase : ℕ
stackbase = userstack - stack_pages * page_size

-- The physical page `paddr` stands behind the page `page`; the first region comes first.
abbrev pub Backed : AddrSpace → ℕ → ℕ → Type 0
Backed as_ page paddr =
    (Within as_.vbase1 as_.npages1 page × (paddr ≡ as_.pbase1 + (page - as_.vbase1)))
    ⊎ ((¬ Within as_.vbase1 as_.npages1 page)
        × Within as_.vbase2 as_.npages2 page
        × (paddr ≡ as_.pbase2 + (page - as_.vbase2)))
    ⊎ ((¬ Within as_.vbase1 as_.npages1 page)
        × (¬ Within as_.vbase2 as_.npages2 page)
        × Within stackbase stack_pages page
        × (paddr ≡ as_.stackpbase + (page - stackbase)))

abbrev pub Unbacked : AddrSpace → ℕ → Type 0
Unbacked as_ page =
    (¬ Within as_.vbase1 as_.npages1 page)
    × (¬ Within as_.vbase2 as_.npages2 page)
    × (¬ Within stackbase stack_pages page)

unfoldable pub Translated : AddrSpace → ℕ → Option ℕ → Type 0
Translated as_ page none = Unbacked as_ page
Translated as_ page (some paddr) = Backed as_ page paddr × (page_of paddr ≡ paddr)

within_true :
    (base top addr : ℕ) → (leb base addr && ltb addr top) ≡ true → (base ≤ addr) × (addr < top)
within_true base top addr h = ground (arith, h)

within_false :
    (base top addr : ℕ) → (leb base addr && ltb addr top) ≡ false → ¬ ((base ≤ addr) × (addr < top))
within_false base top addr h in_ = ground (arith, h, in_)

pub translate-Translated :
    {as_ : AddrSpace} (page : ℕ)
    → IsReady as_
    → page % page_size ≡ 0
    → Translated as_ page (translate as_ page)
unfolding translate Translated
translate-Translated {as_} page r at =
    rw (top1, top2)
      (elim (Bool-cases (leb as_.vbase1 page && ltb page (as_.vbase1 + as_.npages1 * page_size))) [
        | inl in1 ↦
            let w : Within as_.vbase1 as_.npages1 page =
              within_true as_.vbase1 (as_.vbase1 + as_.npages1 * page_size) page in1 in
            let e : (page - as_.vbase1 + as_.pbase1) % 2 ^ 32 ≡ as_.pbase1 + (page - as_.vbase1) =
              omega arith in
            rw (in1, e) (inl (w, refl), omega arith)
        | inr out1 ↦
            rw out1
              (elim (Bool-cases
                (leb as_.vbase2 page && ltb page (as_.vbase2 + as_.npages2 * page_size))) [
                  | inl in2 ↦
                      let w : Within as_.vbase2 as_.npages2 page =
                        within_true as_.vbase2 (as_.vbase2 + as_.npages2 * page_size) page in2 in
                      let e : (page - as_.vbase2 + as_.pbase2) % 2 ^ 32
                          ≡ as_.pbase2 + (page - as_.vbase2) =
                        omega arith in
                      rw (in2, e)
                        (
                          inr (
                              inl (
                                within_false as_.vbase1 (as_.vbase1 + as_.npages1 * page_size) page
                                    out1,
                                w,
                                refl,
                              )),
                          omega arith,
                        )
                  | inr out2 ↦
                      rw out2 (elim (Bool-cases (leb stackbase page && ltb page userstack)) [
                        | inl in3 ↦
                            let w : Within stackbase stack_pages page =
                              within_true stackbase userstack page in3 in
                            let e : (page - stackbase + as_.stackpbase) % 2 ^ 32
                                ≡ as_.stackpbase + (page - stackbase) =
                              omega arith in
                            rw (in3, e)
                              (
                                inr (
                                    inr (
                                      within_false as_.vbase1 (as_.vbase1 + as_.npages1 * page_size)
                                          page out1,
                                      within_false as_.vbase2 (as_.vbase2 + as_.npages2 * page_size)
                                          page out2,
                                      w,
                                      refl,
                                    )),
                                omega arith,
                              )
                        | inr out3 ↦ rw out3 (
                          within_false as_.vbase1 (as_.vbase1 + as_.npages1 * page_size) page out1,
                          within_false as_.vbase2 (as_.vbase2 + as_.npages2 * page_size) page out2,
                          within_false stackbase userstack page out3,
                        )
                      ])
                ])
      ])
  where
    top1 :
        (as_.vbase1 + as_.npages1 * page_size % 2 ^ 32) % 2 ^ 32
        ≡ as_.vbase1 + as_.npages1 * page_size
    top1 = omega arith

    top2 :
        (as_.vbase2 + as_.npages2 * page_size % 2 ^ 32) % 2 ^ 32
        ≡ as_.vbase2 + as_.npages2 * page_size
    top2 = omega arith

-- The slot `i` of the TLB is the first that is not valid.
abbrev pub FirstFree : List Entry → ℕ → Type 0
FirstFree [] i = ⊥
FirstFree (e ∷ tlb) zero = is_valid e ≡ false
FirstFree (e ∷ tlb) (suc i) = (is_valid e ≡ true) × FirstFree tlb i

abbrev pub AllValid : List Entry → Type 0
AllValid [] = Unit {0}
AllValid (e ∷ tlb) = (is_valid e ≡ true) × AllValid tlb

Loaded : Entry → List Entry → Option (List Entry) → Type 0
Loaded e tlb none = AllValid tlb
Loaded e tlb (some tlb') = (i : ℕ) × FirstFree tlb i × (tlb' ≡ set tlb i e)

load_tlb-Loaded : (e : Entry) (tlb : List Entry) → Loaded e tlb (load_tlb e tlb)
unfolding load_tlb Loaded
load_tlb-Loaded e [] = tt
load_tlb-Loaded e (old ∷ tlb) = elim (Bool-cases (is_valid old)) [
  | inl valid ↦ rw valid (go (load_tlb e tlb) (load_tlb-Loaded e tlb) valid)
  | inr free ↦ rw free (zero, free, refl)
]
  where
    go :
        (r : Option (List Entry))
        → Loaded e tlb r
        → is_valid old ≡ true
        → Loaded e (old ∷ tlb) (elim r [ none ↦ none | some tlb' ↦ some (old ∷ tlb') ])
    go none all valid = (valid, all)
    go (some tlb') (i, first, same) valid = (suc i, (valid, first), ap (λ t. old ∷ t) same)

module _ {as_ : AddrSpace} (r : IsReady as_) where
  ready-set_up : set_up as_ ≡ true
  ready-set_up = ground arith

  -- The outcomes of a read or write fault at `addr`.
  abbrev pub Faulted : ℕ → Machine → Run Machine (Unit {0}) → Type 0
  Faulted addr m =
      Ensures
        (λ _ m'.
          (paddr : ℕ) × (i : ℕ) × Backed as_ (page_of addr) paddr
          × FirstFree m.tlb i
          × (m' ≡ record m { tlb = set m.tlb i (page_of addr, paddr + 0x600) }))
        (λ e m'. (e ≡ efault) × (m' ≡ m) × (Unbacked as_ (page_of addr) ⊎ AllValid m.tlb))

  resolved-Faulted :
      (addr : ℕ) (m : Machine) (t : Option ℕ)
      → Translated as_ (page_of addr) t
      → Faulted addr m (resolved (page_of addr) m t)
  unfolding resolved Translated Loaded loaded
  resolved-Faulted addr m none out = fails (refl, refl, inl out)
  resolved-Faulted addr m (some paddr) (backed, at) =
      rw (eq→== (page_of paddr) paddr at)
        (go (load_tlb (entry (page_of addr) paddr) m.tlb) (load_tlb-Loaded _ m.tlb))
    where
      go :
          (tlb : Option (List Entry))
          → Loaded (entry (page_of addr) paddr) m.tlb tlb
          → Faulted addr m (loaded m tlb)
      go none all = fails (refl, refl, inr all)
      go (some tlb) (i, first, same) = returns (
        paddr,
        i,
        backed,
        first,
        ap (λ t. record m { tlb = t })
            (same ∙ ap (λ e. set m.tlb i (page_of addr, e)) (omega arith)),
      )

  fault_at-Faulted : (addr : ℕ) (m : Machine) → Faulted addr m (fault_at as_ (page_of addr) m)
  unfolding fault_at
  fault_at-Faulted addr m = rw ready-set_up (
      resolved-Faulted addr m (translate as_ (page_of addr))
        (translate-Translated (page_of addr) r (omega arith)))

  -- In an address space that is ready, `vm_fault` on a read or a write does not panic. It returns 0
  -- with the first invalid TLB entry, and no other, set to map the page of the address to the
  -- physical page behind it, dirty and valid; or it returns EFAULT, and nothing has changed, because
  -- no region has the page or because every TLB entry is valid.
  pub vm_fault-Faulted :
      (addr : ℕ) (m : Machine)
      → Faulted addr m (vm_fault read addr (some as_) m)
        × Faulted addr m (vm_fault write addr (some as_) m)
  unfolding vm_fault
  vm_fault-Faulted addr m = (fault_at-Faulted addr m, fault_at-Faulted addr m)
