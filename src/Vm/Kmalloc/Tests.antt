-- ===== src/Vm/Kmalloc/Tests.antt =====
-- The kernel's memory allocator on a heap of one page.
use ops_class.Base.{ℕ, zero, suc, ◌≡◌, ◌≢◌, refl, sym, ap, ◌∙◌, arith, true, false, List, []}
use ops_class.Base.Run.{Checked, value, panic}
use ops_class.Vm.Kmalloc.{
  Heap, sizes, new_page, set_ref, kmalloc, kfree, blocktype, find_free, doalloc, take_next,
  thread_list,
}
use ops_class.Vm.Kmalloc.Count.{put, count-none, count-put, put_other}
use ops_class.Vm.Kmalloc.Valid.{IsHeap, address}
use ops_class.Vm.Kmalloc.Alloc.{Adds, taken_ref, doalloc-Adds}
use ops_class.Vm.Kmalloc.Fresh.{down}
use ops_class.Vm.Kmalloc.NewPage.{IsFresh, IsHeap-fresh}
use ops_class.Vm.Kmalloc.Laws.{Kmalloced, kmalloc-Kmalloced}
use ops_class.Vm.Kmalloc.Release.{Kfreed, kfree-Kfreed}
use ops_class.Vm.Kmalloc.Pagerefs.{Root}
use ops_class.Vm.Kmalloc.Pagerefs.Slots.{IsRoots, IsRoots-put, in_use-put}

abbrev unused : Root
unused = record { page = 0x9000; inuse = λ j. false; numinuse = 0 }

abbrev empty : Heap
empty = record {
  word = λ a. 0;
  refs = λ p. record { pageaddr_and_blocktype = 0; freelist_offset = 0; nfree = 0 };
  sizebases = λ b. [];
  allbase = [];
  roots = λ r. unused;
  freed = [];
}

unused-IsRoots : IsRoots (empty.roots)
unused-IsRoots r = record { counted = sym (count-none 256); unused = λ z. refl }

empty-IsHeap : IsHeap empty (λ p. [])
empty-IsHeap = record {
  page = λ p h. absurd (cc);
  listed = λ b p. refl;
  once = tt;
  once_each = λ b. tt;
  apart = λ p q h h' z. absurd (cc);
  used = λ p h. absurd (cc);
  rooted = λ p h. absurd (cc);
  roots = unused-IsRoots;
}

page-IsFresh : (n : ℕ) → IsFresh empty 0x1_0000
page-IsFresh n = record { at_page = refl; high = omega arith; new = λ q h. absurd (cc) }

kmalloc-Kmalloced_example :
    Kmalloced empty (λ p. []) (λ n. 0x1_0000) 100 (kmalloc (λ n. 0x1_0000) 0x2000 100 empty)
kmalloc-Kmalloced_example =
    kmalloc-Kmalloced empty-IsHeap (λ n. 0x1_0000) 100 0x2000 (omega arith) refl page-IsFresh

abbrev first_used : Root
first_used = record { page = 0x9000; inuse = put (λ j. false) 0 true; numinuse = 1 }

first_used-IsRoots : IsRoots (put (λ r. unused) 0 first_used)
first_used-IsRoots =
    IsRoots-put (λ r. unused) 0 first_used unused-IsRoots
      (record {
        counted = omega (arith, count-none 256, count-put (λ j. false) 0 256 true (omega arith));
        unused = λ z. absurd (omega arith);
      })

abbrev one_page : Heap
one_page = new_page 0 0x1_0000 3 (record empty { roots = put (λ r. unused) 0 first_used })

abbrev page_blocks : ℕ → List ℕ
page_blocks = put (λ p. []) 0 (down 32)

always_page : (r : ℕ) → (put (λ r. unused) 0 first_used r).page ≢ 0
always_page zero z = omega arith
always_page (suc r) z = omega (
  arith,
  sym (
        ap {A = Root} {B = ℕ} (λ k. k.page)
          (put_other (λ r. unused) 0 (suc r) first_used (λ e. omega arith)))
      ∙ z,
)

one_page-IsHeap : IsHeap one_page page_blocks
unfolding sizes
one_page-IsHeap =
    IsHeap-fresh empty-IsHeap 0x1_0000 3 (page-IsFresh 1) (omega arith) (omega arith) 0
      (put (λ r. unused) 0 first_used) (omega arith) refl first_used-IsRoots
      (in_use-put (λ r. unused) 0 0 first_used true (omega arith) (λ j. refl))
      (λ r h. always_page r) (λ r h. always_page r)

-- Its last block taken.
abbrev one_block : Heap
one_block = set_ref one_page 0 (taken_ref (one_page.refs 0) (down 31))

abbrev other_blocks : ℕ → List ℕ
other_blocks = put page_blocks 0 (down 31)

one_block-Adds : Adds one_page page_blocks one_block other_blocks 0 31
unfolding new_page
one_block-Adds = doalloc-Adds one_page-IsHeap 0 refl 31 (down 31) refl

kfree-Kfreed_example : Kfreed one_block other_blocks 0 31 (kfree (address one_block 0 31) one_block)
kfree-Kfreed_example = kfree-Kfreed (one_block-Adds.heap) 0 31 (one_block-Adds.live)

-- What a call hands out, or 1 for a panic.
abbrev handed_out : Checked (ℕ × Heap) → ℕ
handed_out (value (a, s)) = a
handed_out panic = 1

last_block : handed_out (kmalloc (λ n. 0) 0x2000 100 one_page) ≡ 0x1_0f80
unfolding kmalloc blocktype sizes find_free doalloc take_next new_page thread_list
last_block = refl
