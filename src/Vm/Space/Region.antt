-- ===== src/Vm/Space/Region.antt =====
-- `as_define_region`: the pages of a region.
use ops_class.Base.{
  ℕ, ◌+◌, ◌-◌, ◌*◌, ◌/◌, ◌%◌, ◌^◌, ◌≤◌, ◌<◌, ◌≡◌, ◌≢◌, refl, ◌⊎◌, inl, inr, true, ◌==◌, arith,
  Bool-cases, ==→eq, ==→ne,
}
use ops_class.Base.Run.{enosys, Ensures, returns, fails}
use ops_class.Vm.Ram.{page_size}
use ops_class.Vm.Dumbvm.{AddrSpace, Machine, page_of, can_sleep}
use ops_class.Vm.Space.{as_define_region}

-- `npages` whole pages from `base` on are the fewest that cover `sz` bytes at `vaddr`.
abbrev pub Covers : ℕ → ℕ → ℕ → ℕ → Type 0
Covers base npages vaddr sz =
    (base % page_size ≡ 0)
    × (base ≤ vaddr)
    × (vaddr < base + page_size)
    × (vaddr + sz ≤ base + npages * page_size)
    × (base + npages * page_size < vaddr + sz + page_size)

-- The first region that is free takes the pages; the other, and what is loaded, stays.
abbrev pub Defined : ℕ → ℕ → AddrSpace → Unit {0} → AddrSpace → Type 0
Defined vaddr sz as_ _ as' =
    ((as_.vbase1 ≡ 0)
      × Covers as'.vbase1 as'.npages1 vaddr sz
      × (as' ≡ record as_ { vbase1 = as'.vbase1; npages1 = as'.npages1 }))
    ⊎ ((as_.vbase1 ≢ 0)
        × (as_.vbase2 ≡ 0)
        × Covers as'.vbase2 as'.npages2 vaddr sz
        × (as' ≡ record as_ { vbase2 = as'.vbase2; npages2 = as'.npages2 }))

page_count-Covers :
    (vaddr sz : ℕ)
    → vaddr + sz + 2 * page_size < 2 ^ 32
    → Covers
        (page_of vaddr)
        (page_of (((sz + vaddr % page_size) % 2 ^ 32 + page_size - 1) % 2 ^ 32) / page_size)
        vaddr
        sz
page_count-Covers vaddr sz fits = omega arith

-- A region that ends two pages below the top of the address space is defined, where the caller may
-- sleep, as the fewest whole pages that cover it, in the first of the two regions that is free; with
-- both in use the result is ENOSYS and nothing has changed.
pub as_define_region-Defined :
    (m : Machine) (vaddr sz : ℕ) (as_ : AddrSpace)
    → can_sleep m ≡ true
    → vaddr + sz + 2 * page_size < 2 ^ 32
    → Ensures
        (Defined vaddr sz as_)
        (λ e as'. (e ≡ enosys) × (as' ≡ as_) × (as_.vbase1 ≢ 0) × (as_.vbase2 ≢ 0))
        (as_define_region m vaddr sz as_)
unfolding as_define_region
as_define_region-Defined m vaddr sz as_ sleepy fits =
    rw sleepy (elim (Bool-cases (as_.vbase1 == 0)) [
      | inl free1 ↦
          rw free1 (returns (inl (==→eq as_.vbase1 0 free1, page_count-Covers vaddr sz fits, refl)))
      | inr used1 ↦ rw used1 (elim (Bool-cases (as_.vbase2 == 0)) [
        | inl free2 ↦ rw free2 (
            returns (
              inr (
                ==→ne as_.vbase1 0 used1,
                ==→eq as_.vbase2 0 free2,
                page_count-Covers vaddr sz fits,
                refl,
              )))
        | inr used2 ↦
            rw used2 (fails (refl, refl, ==→ne as_.vbase1 0 used1, ==→ne as_.vbase2 0 used2))
      ])
    ])
