-- ===== src/Vm/Space/Zero.antt =====
-- `as_zero_region`, and three regions that are zeroed in a row.
use ops_class.Base.{ℕ, ◌+◌, ◌*◌, ◌%◌, ◌^◌, ◌≤◌, ◌<◌, ◌≡◌, refl, ◌∙◌, arith, ap, subst}
use ops_class.Libc.Memory.{Mem}
use ops_class.Libc.Memory.Fill.{Filled, bzero-Filled}
use ops_class.Vm.Ram.{page_size, kseg0}
use ops_class.Vm.Dumbvm.{Machine, stack_pages, kvaddr}
use ops_class.Vm.Space.{zero_region}

zero_region-Filled :
    (p n : ℕ) (m : Machine)
    → p < 0x2000_0000
    → n < 0x40000
    → (zero_region p n m ≡ record m { mem = (zero_region p n m).mem })
      × Filled m.mem (p + kseg0) 0 (n * page_size) (zero_region p n m).mem
unfolding zero_region
zero_region-Filled p n m low small =
    rw (at, size) (refl, bzero-Filled m.mem (p + kseg0) (n * page_size))
  where
    at : kvaddr p ≡ p + kseg0
    at = omega arith

    size : n * page_size % 2 ^ 32 ≡ n * page_size
    size = omega arith

-- Regions that follow one another are filled as one.
Filled-next :
    (mem0 mem mem' : Mem) (p a b : ℕ)
    → Filled mem0 p 0 a mem
    → Filled mem (p + a) 0 b mem'
    → Filled mem0 p 0 (a + b) mem'
Filled-next mem0 mem mem' p a b first second x = ground (arith, first x, second x)

-- Three regions, one after the other, are zeroed.
abbrev pub zero_three : ℕ → ℕ → ℕ → ℕ → ℕ → Machine → Machine
zero_three p1 n1 p2 n2 p3 m = zero_region p3 stack_pages (zero_region p2 n2 (zero_region p1 n1 m))

pub zero_three-Filled :
    (p1 n1 p2 n2 p3 : ℕ) (m : Machine)
    → p2 ≡ p1 + n1 * page_size
    → p3 ≡ p2 + n2 * page_size
    → p3 + stack_pages * page_size ≤ 0x2000_0000
    → (zero_three p1 n1 p2 n2 p3 m ≡ record m { mem = (zero_three p1 n1 p2 n2 p3 m).mem })
      × Filled m.mem
          (p1 + kseg0)
          0
          ((n1 + n2 + stack_pages) * page_size)
          (zero_three p1 n1 p2 n2 p3 m).mem
zero_three-Filled p1 n1 p2 n2 p3 m e2 e3 high = (
  z3.0
      ∙ ap {A = Machine} {B = Machine} (λ k. record k { mem = m3.mem })
          (z2.0 ∙ ap {A = Machine} {B = Machine} (λ k. record k { mem = m2.mem }) z1.0),
  subst (λ k. Filled m.mem (p1 + kseg0) 0 k m3.mem) total
      (Filled-next m.mem m2.mem m3.mem (p1 + kseg0) (n1 * page_size + n2 * page_size)
        (stack_pages * page_size)
        (Filled-next m.mem m1.mem m2.mem (p1 + kseg0) (n1 * page_size) (n2 * page_size) z1.1
          (subst (λ q. Filled m1.mem q 0 (n2 * page_size) m2.mem) at2 z2.1))
        (subst (λ q. Filled m2.mem q 0 (stack_pages * page_size) m3.mem) at3 z3.1)),
)
  where
    m1 : Machine
    m1 = zero_region p1 n1 m

    m2 : Machine
    m2 = zero_region p2 n2 m1

    m3 : Machine
    m3 = zero_region p3 stack_pages m2

    z1 : (m1 ≡ record m { mem = m1.mem }) × Filled m.mem (p1 + kseg0) 0 (n1 * page_size) m1.mem
    z1 = zero_region-Filled p1 n1 m (omega arith) (omega arith)

    z2 : (m2 ≡ record m1 { mem = m2.mem }) × Filled m1.mem (p2 + kseg0) 0 (n2 * page_size) m2.mem
    z2 = zero_region-Filled p2 n2 m1 (omega arith) (omega arith)

    z3 :
        (m3 ≡ record m2 { mem = m3.mem })
        × Filled m2.mem (p3 + kseg0) 0 (stack_pages * page_size) m3.mem
    z3 = zero_region-Filled p3 stack_pages m2 (omega arith) (omega arith)

    at2 : p2 + kseg0 ≡ p1 + kseg0 + n1 * page_size
    at2 = omega arith

    at3 : p3 + kseg0 ≡ p1 + kseg0 + (n1 * page_size + n2 * page_size)
    at3 = omega arith

    total :
        n1 * page_size + n2 * page_size + stack_pages * page_size
        ≡ (n1 + n2 + stack_pages) * page_size
    total = omega arith
