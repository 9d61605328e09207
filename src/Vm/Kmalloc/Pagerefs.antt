-- ===== src/Vm/Kmalloc/Pagerefs.antt =====
-- kern/vm/kmalloc.c: the pages of struct pageref, and which of them are in use.
pub mod Slots
use ops_class.Base.{
  ℕ, zero, suc, ◌+◌, ◌-◌, ◌*◌, ◌/◌, ◌%◌, Bool, true, false, ◌&&◌, not, Option, none, some, ◌==◌,
  ltb, leb, if◌then◌else◌,
}
use ops_class.Base.Run.{Checked, value, panic}
use ops_class.Vm.Kmalloc.Count.{put}

-- `struct kheap_root`, with the bits of `pagerefs_inuse` by number; a `page` of 0 is NULL.
pub record Root : Type 0 where
  pub page : ℕ
  pub inuse : ℕ → Bool
  pub numinuse : ℕ

-- `kheaproots`. The pageref in slot `k` of root `r` is `r * 256 + k`.
abbrev pub Roots : Type 0
Roots = ℕ → Root

-- The first clear bit from `j` on, among `n`.
pub first_clear : (ℕ → Bool) → ℕ → ℕ → Option ℕ
first_clear f j zero = none
first_clear f j (suc n) = let rest = first_clear f (j + 1) n in if f j then rest else some j

-- `allocpagerefpage`, `va` being what `alloc_kpages` returns.
pub allocpagerefpage : ℕ → Root → Checked Root
allocpagerefpage va root =
    if not (root.page == 0)
    then panic
    else if va == 0
    then value root
    else if not (va % 4096 == 0)
    then panic
    else value (record root { page = va })

abbrev pub with_slot : Roots → ℕ → ℕ → Checked Root → Checked (Option ℕ × Roots)
with_slot roots r k (value root) =
    value (if root.page == 0 then none else some (r * 256 + k), put roots r root)
with_slot roots r k panic = panic

abbrev pub marked : Root → ℕ → Root
marked root k = record root { inuse = put root.inuse k true; numinuse = root.numinuse + 1 }

abbrev pub take_slot : ℕ → Roots → ℕ → ℕ → Checked (Option ℕ × Roots)
take_slot va roots r k =
    if (roots r).page == 0
    then with_slot roots r k (allocpagerefpage va (marked (roots r) k))
    else with_slot roots r k (value (marked (roots r) k))

-- A root none of whose words has a clear bit is passed over.
abbrev pub found_slot :
    ℕ → Roots → ℕ → Checked (Option ℕ × Roots) → Option ℕ → Checked (Option ℕ × Roots)
found_slot va roots r later none = later
found_slot va roots r later (some k) = take_slot va roots r k

-- From root `r` on, with `n` roots to go.
pub alloc_from : ℕ → Roots → ℕ → ℕ → Checked (Option ℕ × Roots)
alloc_from va roots r zero = value (none, roots)
alloc_from va roots r (suc n) =
    let later = alloc_from va roots (r + 1) n in
    if leb 256 (roots r).numinuse
    then later
    else found_slot va roots r later (first_clear (roots r).inuse 0 256)

unfoldable pub allocpageref : ℕ → Roots → Checked (Option ℕ × Roots)
unfolding alloc_from
allocpageref va roots = alloc_from va roots 0 16

abbrev pub unmarked : Root → ℕ → Root
unmarked root k = record root { inuse = put root.inuse k false; numinuse = root.numinuse - 1 }

pub free_from : ℕ → Roots → ℕ → ℕ → Checked Roots
free_from p roots r zero = panic
free_from p roots r (suc n) =
    let later = free_from p roots (r + 1) n in
    let root = roots r in
    if root.page == 0
    then (if root.numinuse == 0 then later else panic)
    else if p / 256 == r
    then (if root.inuse (p % 256) && ltb 0 root.numinuse
        then value (put roots r (unmarked root (p % 256)))
        else panic)
    else later

unfoldable pub freepageref : ℕ → Roots → Checked Roots
unfolding free_from
freepageref p roots = free_from p roots 0 16
