-- ===== src/Vm/Ram/Laws.antt =====
-- What `ram_stealmem` hands out, over a whole run of requests.
use ops_class.Base.{
  ℕ, ◌+◌, ◌-◌, ◌*◌, ◌%◌, ◌^◌, ◌≤◌, ◌<◌, ◌≡◌, refl, ◌⊎◌, inl, inr, ltb, if◌then◌else◌, arith, List,
  [], ◌∷◌, Bool-cases, lt→ltb, subst,
}
use ops_class.Vm.Ram.{Ram, page_size, bootstrap, stealmem}

-- Free memory lies in the 512 MB that kseg0 reaches, above page 0, and begins at a page.
pub record IsValid (ram : Ram) : Type 0 where
  pub above_zero : 0 < ram.firstpaddr
  pub ordered : ram.firstpaddr ≤ ram.lastpaddr
  pub reach : ram.lastpaddr ≤ 512 * 1024 * 1024
  pub at_page : ram.firstpaddr % page_size ≡ 0

-- The outcome of a request for `npages`: 0 if so much is not left, and nothing has changed; else
-- the lowest free pages, which are free no more.
abbrev pub Stolen : ℕ → Ram → ℕ × Ram → Type 0
Stolen npages ram (addr, ram') =
    ((addr ≡ 0) × (ram' ≡ ram) × (ram.lastpaddr < ram.firstpaddr + npages * page_size))
    ⊎ ((addr ≡ ram.firstpaddr)
        × (ram'.firstpaddr ≡ addr + npages * page_size)
        × (ram'.lastpaddr ≡ ram.lastpaddr)
        × IsValid ram')

-- A request for less than a gigabyte of a valid memory is answered so, without overflow.
pub stealmem-Stolen :
    (npages : ℕ) {ram : Ram}
    → IsValid ram
    → npages < 0x40000
    → Stolen npages ram (stealmem npages ram)
unfolding stealmem
stealmem-Stolen npages {ram} v small =
    elim (Bool-cases
      (ltb ram.lastpaddr ((ram.firstpaddr + npages * page_size % 2 ^ 32) % 2 ^ 32))) [
        | inl over ↦ rw over (inl (refl, refl, ground (arith, over)))
        | inr fits ↦ rw fits (inr (refl, omega arith, refl, ground (arith, fits)))
      ]

-- `ram_bootstrap` makes a valid memory, if the kernel ends on a page of what is there.
pub bootstrap-IsValid :
    (ramsize firstfree : ℕ)
    → 0x8000_0000 < firstfree
    → firstfree < 0xa000_0000
    → firstfree - 0x8000_0000 ≤ ramsize
    → firstfree % page_size ≡ 0
    → IsValid (bootstrap ramsize firstfree)
unfolding bootstrap
bootstrap-IsValid ramsize firstfree low high inside page = ground arith

-- The regions that a run of requests gets: address and pages of each that succeeded.
pub steal_all : List ℕ → Ram → List (ℕ × ℕ)
steal_all [] ram = []
steal_all (n ∷ ns) ram =
    let (addr, ram') = stealmem n ram in
    let rest = steal_all ns ram' in if ltb 0 addr then (addr, n) ∷ rest else rest

-- The regions lie one above the other, from `low` to `high`.
abbrev pub Stacked : ℕ → ℕ → List (ℕ × ℕ) → Type 0
Stacked low high [] = low ≤ high
Stacked low high ((addr, n) ∷ rest) =
    (low ≤ addr) × (addr + n * page_size ≤ high) × Stacked (addr + n * page_size) high rest

abbrev pub AllSmall : List ℕ → Type 0
AllSmall [] = Unit {0}
AllSmall (n ∷ ns) = (n < 0x40000) × AllSmall ns

Stacked-step :
    (n : ℕ) (ns : List ℕ) (ram : Ram) (r : ℕ × Ram)
    → IsValid ram
    → Stolen n ram r
    → ((ram' : Ram) → IsValid ram' → Stacked ram'.firstpaddr ram'.lastpaddr (steal_all ns ram'))
    → Stacked ram.firstpaddr ram.lastpaddr
        (if ltb 0 r.0 then (r.0, n) ∷ steal_all ns r.1 else steal_all ns r.1)
Stacked-step n ns ram (addr, ram') v (inl (zero_, same, full)) ih = rw (zero_, same) (ih ram v)
Stacked-step n ns ram (addr, ram') v (inr (at, next, last, v')) ih =
    let pos : 0 < addr = omega (arith, v.above_zero) in
    rw (lt→ltb 0 addr pos) (
      omega arith,
      omega (arith, v'.ordered),
      subst (λ l. Stacked l ram.lastpaddr (steal_all ns ram')) next
          (subst (λ h. Stacked ram'.firstpaddr h (steal_all ns ram')) last (ih ram' v')),
    )

-- However many requests are made of less than 0x40000 pages each, from a valid state, the regions
-- handed out are disjoint, in rising order, and lie in the free memory that there was at the start.
pub steal_all-Stacked :
    (ns : List ℕ) {ram : Ram}
    → IsValid ram
    → AllSmall ns
    → Stacked ram.firstpaddr ram.lastpaddr (steal_all ns ram)
unfolding steal_all
steal_all-Stacked [] v small = v.ordered
steal_all-Stacked (n ∷ ns) {ram} v small =
    Stacked-step n ns ram (stealmem n ram) v (stealmem-Stolen n v small.0)
      (λ ram' v'. steal_all-Stacked ns v' small.1)
