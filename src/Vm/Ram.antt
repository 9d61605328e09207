-- ===== src/Vm/Ram.antt =====
-- kern/arch/mips/vm/ram.c: the physical memory left at boot, handed out from the bottom.
pub mod Laws
use ops_class.Base.{ℕ, ◌+◌, ◌-◌, ◌*◌, ◌%◌, ◌^◌, ltb, if◌then◌else◌}

-- `firstpaddr` and `lastpaddr`.
pub record Ram : Type 0 where
  pub firstpaddr : ℕ
  pub lastpaddr : ℕ

abbrev pub page_size : ℕ
page_size = 4096

abbrev pub kseg0 : ℕ
kseg0 = 0x8000_0000

-- `mainbus_ramsize()` and `firstfree` are given.
unfoldable pub bootstrap : ℕ → ℕ → Ram
bootstrap ramsize firstfree =
    let ramsize = if ltb (512 * 1024 * 1024) ramsize then 512 * 1024 * 1024 else ramsize in
    record { firstpaddr = (firstfree + 2 ^ 32 - kseg0) % 2 ^ 32; lastpaddr = ramsize }

-- All sums and products are of 32-bit numbers.
unfoldable pub stealmem : ℕ → Ram → ℕ × Ram
stealmem npages ram =
    let size = npages * page_size % 2 ^ 32 in
    if ltb ram.lastpaddr ((ram.firstpaddr + size) % 2 ^ 32)
    then (0, ram)
    else (ram.firstpaddr, record ram { firstpaddr = (ram.firstpaddr + size) % 2 ^ 32 })

unfoldable pub getsize : Ram → ℕ
getsize ram = ram.lastpaddr

unfoldable pub getfirstfree : Ram → ℕ × Ram
getfirstfree ram = (ram.firstpaddr, record { firstpaddr = 0; lastpaddr = 0 })
