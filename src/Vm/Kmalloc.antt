-- ===== src/Vm/Kmalloc.antt =====
-- kern/vm/kmalloc.c: the kernel's memory allocator, as it is compiled: without SLOW, GUARDS, LABELS
-- and CHECKBEEF. Each call is one step; what `alloc_kpages` returns while the spinlock is released is
-- an argument. Addresses are numbers, and 0 is NULL.
pub mod Count
pub mod Pagerefs
pub mod Sizes
pub mod Valid
pub mod Alloc
pub mod Fresh
pub mod NewPage
pub mod Laws
pub mod Free
pub mod Unlink
pub mod Release
mod Tests
use ops_class.Base.{
  ℕ, zero, suc, ◌+◌, ◌-◌, ◌*◌, ◌/◌, ◌%◌, ◌^◌, Bool, true, false, ◌&&◌, not, ◌||◌, Option, none,
  some, List, [], ◌∷◌, ◌==◌, ltb, leb, if◌then◌else◌, get_or,
}
use ops_class.Base.Run.{Checked, value, panic}
use ops_class.Vm.Kmalloc.Count.{put}
use ops_class.Vm.Kmalloc.Pagerefs.{Roots, allocpageref, freepageref}

unfoldable pub sizes : ℕ → ℕ
sizes blktype = get_or (16 ∷ 32 ∷ 64 ∷ 128 ∷ 256 ∷ 512 ∷ 1024 ∷ 2048 ∷ []) blktype 0

pub record Pageref : Type 0 where
  pub pageaddr_and_blocktype : ℕ
  pub freelist_offset : ℕ
  pub nfree : ℕ

abbrev pub invalid_offset : ℕ
invalid_offset = 0xffff

abbrev pub pageaddr : Pageref → ℕ
pageaddr pr = pr.pageaddr_and_blocktype - pr.pageaddr_and_blocktype % 4096

abbrev pub block_type : Pageref → ℕ
block_type pr = pr.pageaddr_and_blocktype % 4096

abbrev pub mkpab : ℕ → ℕ → ℕ
mkpab pa blk = (pa - pa % 4096) + blk % 4096

-- The words of memory by address, the pagerefs, the lists of them through `next_samesize` and
-- `next_all`, the pages of pagerefs, and the calls of `free_kpages` so far.
pub record Heap : Type 0 where
  pub word : ℕ → ℕ
  pub refs : ℕ → Pageref
  pub sizebases : ℕ → List ℕ
  pub allbase : List ℕ
  pub roots : Roots
  pub freed : List ℕ

-- `fill_deadbeef`, with the words to go.
pub deadbeef : ℕ → ℕ → (ℕ → ℕ) → ℕ → ℕ
deadbeef ptr zero word = word
deadbeef ptr (suc n) word = deadbeef (ptr + 4) n (put word ptr 0xdead_beef)

-- `*guy = pr->next_samesize` where `*guy == pr`.
pub unlinked : ℕ → List ℕ → List ℕ
unlinked p [] = []
unlinked p (q ∷ qs) = let rest = unlinked p qs in if q == p then qs else q ∷ rest

abbrev pub remove_lists : ℕ → ℕ → Heap → Heap
remove_lists p blktype s = record s {
  sizebases = put s.sizebases blktype (unlinked p (s.sizebases blktype));
  allbase = unlinked p s.allbase;
}

-- From size `i` on, with `n` to go.
pub type_from : ℕ → ℕ → ℕ → Checked ℕ
type_from clientsz i zero = panic
type_from clientsz i (suc n) =
    let rest = type_from clientsz (i + 1) n in if leb clientsz (sizes i) then value i else rest

unfoldable pub blocktype : ℕ → Checked ℕ
unfolding type_from
blocktype clientsz = type_from clientsz 0 8

-- The first page of the list with a free block.
pub find_free : (ℕ → Pageref) → ℕ → List ℕ → Checked (Option ℕ)
find_free refs blktype [] = value none
find_free refs blktype (p ∷ ps) =
    let rest = find_free refs blktype ps in
    if not (block_type (refs p) == blktype)
    then panic
    else if ltb 0 (refs p).nfree
    then value (some p)
    else rest

abbrev pub set_ref : Heap → ℕ → Pageref → Heap
set_ref s p pr = record s { refs = put s.refs p pr }

-- From `doalloc` on, `fl` being the next entry of the free list.
pub take_next : Heap → ℕ → ℕ → ℕ → ℕ → Checked (ℕ × Heap)
take_next s p retptr fl nfree =
    let pr = s.refs p in
    let offset = (fl + 2 ^ 32 - pageaddr pr) % 2 ^ 32 in
    if not (fl == 0)
    then (if ltb 0 nfree && ltb offset 4096
        then value (retptr, set_ref s p (record pr { freelist_offset = offset; nfree = nfree }))
        else panic)
    else if nfree == 0
    then value (retptr, set_ref s p (record pr { freelist_offset = invalid_offset; nfree = nfree }))
    else panic

pub doalloc : Heap → ℕ → Checked (ℕ × Heap)
doalloc s p =
    let pr = s.refs p in
    let fla = pageaddr pr + pr.freelist_offset in
    if not (ltb pr.freelist_offset 4096)
    then panic
    else take_next s p fla (s.word fla) ((pr.nfree + (2 ^ 16 - 1)) % 2 ^ 16)

-- The loop that threads the free list of a new page, from block `i` on, with `n` to go.
pub thread_list : ℕ → ℕ → ℕ → ℕ → (ℕ → ℕ) → ℕ → ℕ
thread_list fla size i zero word = word
thread_list fla size i (suc n) word =
    thread_list fla size (i + 1) n (put word (fla + i * size) (fla + (i - 1) * size))

-- A new page, put in front of both lists; all its blocks are free.
unfoldable pub new_page : ℕ → ℕ → ℕ → Heap → Heap
new_page p prpage blktype s =
    let n = 4096 / sizes blktype in
    record s {
      word = thread_list prpage (sizes blktype) 1 (n - 1) (put s.word prpage 0);
      refs = put s.refs p (record {
        pageaddr_and_blocktype = mkpab prpage blktype;
        freelist_offset = (n - 1) * sizes blktype;
        nfree = n;
      });
      sizebases = put s.sizebases blktype (p ∷ s.sizebases blktype);
      allbase = p ∷ s.allbase;
    }

abbrev pub on_pageref : Heap → ℕ → ℕ → Checked (Option ℕ × Roots) → Checked (ℕ × Heap)
on_pageref s prpage blktype (value (some p, roots)) =
    doalloc (new_page p prpage blktype (record s { roots = roots })) p
on_pageref s prpage blktype (value (none, roots)) =
    value (0, record s { roots = roots; freed = prpage ∷ s.freed })
on_pageref s prpage blktype panic = panic

-- `prpage` is what `alloc_kpages(1)` returns, `va` what it returns in `allocpagerefpage`.
abbrev pub on_free : ℕ → ℕ → Heap → ℕ → Checked (Option ℕ) → Checked (ℕ × Heap)
on_free prpage va s blktype (value (some p)) = doalloc s p
on_free prpage va s blktype (value none) =
    if prpage == 0
    then value (0, s)
    else if not (prpage % 4096 == 0)
    then panic
    else on_pageref s prpage blktype (allocpageref va s.roots)
on_free prpage va s blktype panic = panic

abbrev pub on_type : ℕ → ℕ → Heap → Checked ℕ → Checked (ℕ × Heap)
on_type prpage va s (value blktype) =
    on_free prpage va s blktype (find_free s.refs blktype (s.sizebases blktype))
on_type prpage va s panic = panic

pub subpage_kmalloc : ℕ → ℕ → ℕ → Heap → Checked (ℕ × Heap)
subpage_kmalloc prpage va sz s = on_type prpage va s (blocktype sz)

unfoldable pub kmalloc : (ℕ → ℕ) → ℕ → ℕ → Heap → Checked (ℕ × Heap)
unfolding subpage_kmalloc
kmalloc alloc_kpages va sz s =
    let address = alloc_kpages ((sz + 4095) % 2 ^ 32 / 4096) in
    if leb 2048 sz
    then (if address == 0
        then value (0, s)
        else if address % 4096 == 0
        then value (address, s)
        else panic)
    else subpage_kmalloc (alloc_kpages 1) va sz s

-- The page of the heap that the address is on.
pub find_page : (ℕ → Pageref) → ℕ → List ℕ → Checked (Option ℕ)
find_page refs ptraddr [] = value none
find_page refs ptraddr (p ∷ ps) =
    let rest = find_page refs ptraddr ps in
    let prpage = pageaddr (refs p) in
    if not (ltb (block_type (refs p)) 8)
    then panic
    else if leb prpage ptraddr && ltb ptraddr ((prpage + 4096) % 2 ^ 32)
    then value (some p)
    else rest

abbrev pub release_page : Heap → ℕ → Checked Roots → Checked (Bool × Heap)
release_page s prpage (value roots) =
    value (true, record s { roots = roots; freed = prpage ∷ s.freed })
release_page s prpage panic = panic

-- The end of `subpage_kfree`, with the block on the free list and `nfree` counted up.
abbrev pub counted_free : Heap → ℕ → ℕ → ℕ → Checked (Bool × Heap)
counted_free s p size nfree =
    if ltb (4096 / size) nfree
    then panic
    else if nfree == 4096 / size
    then release_page (remove_lists p (block_type (s.refs p)) s) (pageaddr (s.refs p))
        (freepageref p s.roots)
    else value (true, s)

-- The block at `ptraddr` is put in front of the free list of page `p`.
pub put_back : Heap → ℕ → ℕ → ℕ → ℕ → ℕ → Checked (Bool × Heap)
put_back s p ptraddr offset next nfree =
    let pr = s.refs p in
    let size = sizes (block_type pr) in
    counted_free
      (record s {
        word = put (deadbeef ptraddr (size / 4) s.word) ptraddr next;
        refs = put s.refs p (record pr { freelist_offset = offset; nfree = nfree });
      })
      p size nfree

-- `subpage_kfree` from where the page `p` of the block at `ptraddr` is known.
pub free_block : Heap → ℕ → ℕ → Checked (Bool × Heap)
free_block s p ptraddr =
    let pr = s.refs p in
    let size = sizes (block_type pr) in
    let offset = ptraddr - pageaddr pr in
    let next =
      if pr.freelist_offset == invalid_offset then 0 else pageaddr pr + pr.freelist_offset in
    let nfree = (pr.nfree + 1) % 2 ^ 16 in
    if leb 4096 offset || not (offset % size == 0)
    then panic
    else if not (pr.freelist_offset == invalid_offset) && (ptraddr == next)
    then panic
    else put_back s p ptraddr offset next nfree

abbrev pub on_page : Heap → ℕ → Checked (Option ℕ) → Checked (Bool × Heap)
on_page s ptraddr (value (some p)) = free_block s p ptraddr
on_page s ptraddr (value none) = value (false, s)
on_page s ptraddr panic = panic

-- False for the -1 that says that the address is on no page of the heap.
pub subpage_kfree : ℕ → Heap → Checked (Bool × Heap)
subpage_kfree ptraddr s = on_page s ptraddr (find_page s.refs ptraddr s.allbase)

abbrev pub free_pages : ℕ → Checked (Bool × Heap) → Checked Heap
free_pages ptr (value (true, s)) = value s
free_pages ptr (value (false, s)) =
    if ptr % 4096 == 0 then value (record s { freed = ptr ∷ s.freed }) else panic
free_pages ptr panic = panic

unfoldable pub kfree : ℕ → Heap → Checked Heap
unfolding subpage_kfree
kfree ptr s = if ptr == 0 then value s else free_pages ptr (subpage_kfree ptr s)
