-- ===== src/Vm/Kmalloc/Laws.antt =====
-- `kmalloc`, and the block that it hands out.
use ops_class.Base.{
  ℕ, ◌+◌, ◌*◌, ◌/◌, ◌%◌, ◌^◌, ◌≤◌, ◌<◌, ◌≡◌, ◌≢◌, inl, inr, refl, sym, ◌∙◌, ap, ap₂, subst, arith,
  Bool-cases, Bool, true, false, ◌&&◌, ◌==◌, ltb, leb, ==→eq, ==→ne, eq→==, List, [], ◌∷◌, Option,
  none, some, ltb→lt,
}
use ops_class.Base.Run.{Checked, value}
use ops_class.Vm.Kmalloc.{
  sizes, blocktype, Pageref, Heap, pageaddr, block_type, find_free, on_pageref, on_free,
  subpage_kmalloc, kmalloc, doalloc, set_ref, new_page,
}
use ops_class.Vm.Kmalloc.Count.{put, has, count, count-none, put_here}
use ops_class.Vm.Kmalloc.Sizes.{blocks, blocktype_lem}
use ops_class.Vm.Kmalloc.Valid.{IsPage, IsHeap, IsLive, address}
use ops_class.Vm.Kmalloc.Alloc.{Adds, Keeps, taken_ref, doalloc_lem, doalloc-Adds, true-false}
use ops_class.Vm.Kmalloc.Fresh.{down}
use ops_class.Vm.Kmalloc.NewPage.{IsFresh, IsHeap-fresh, fresh-Keeps, fresh-only, fresh-first}
use ops_class.Vm.Kmalloc.Pagerefs.{Roots}
use ops_class.Vm.Kmalloc.Pagerefs.Slots.{in_use, Slot, no_slot, new_slot, allocpageref-Slot}

-- What a search for a page with a free block comes to.
data FoundFree (refs : ℕ → Pageref) (ps : List ℕ) : Checked (Option ℕ) → Type 0 where
  none_free : ((p : ℕ) → has p ps ≡ true → (refs p).nfree ≡ 0) → FoundFree refs ps (value none)
  some_free : {p : ℕ} → has p ps ≡ true → 0 < (refs p).nfree → FoundFree refs ps (value (some p))

find_free_lem :
    (refs : ℕ → Pageref) (b : ℕ) (ps : List ℕ)
    → ((p : ℕ) → has p ps ≡ true → (block_type (refs p) == b) ≡ true)
    → FoundFree refs ps (find_free refs b ps)
unfolding find_free
find_free_lem refs b [] types = none_free (λ p h. absurd (true-false (sym h)))
find_free_lem refs b (p ∷ ps) types =
    rw (types p (rw (eq→== p p refl) refl)) (elim (Bool-cases (ltb 0 (refs p).nfree)) [
      | inl some_ ↦ rw some_ (some_free (rw (eq→== p p refl) refl) (ltb→lt 0 (refs p).nfree some_))
      | inr full ↦ rw full (
          later (ground (arith, full))
            (find_free_lem refs b ps (λ q h. types q (has_later p q ps h))))
    ])
  where
    has_later : (p q : ℕ) (ps : List ℕ) → has q ps ≡ true → has q (p ∷ ps) ≡ true
    has_later p q ps h = elim (Bool-cases (p == q)) [ inl e ↦ rw e refl | inr ne ↦ rw ne h ]

    later :
        {r : Checked (Option ℕ)}
        → (refs p).nfree ≡ 0
        → FoundFree refs ps r
        → FoundFree refs (p ∷ ps) r
    later full (none_free rest) = none_free (λ q h. elim (Bool-cases (p == q)) [
      | inl e ↦ subst (λ k. (refs k).nfree ≡ 0) (==→eq p q e) full
      | inr ne ↦ rest q (rw ne at h)
    ])
    later full (some_free {p = q} h f) = some_free (has_later p q ps h) f

-- No page with blocks of the type for `sz` bytes has one that is free.
abbrev NoneFree : Heap → ℕ → Type 0
NoneFree s sz =
    (b p : ℕ)
    → blocktype sz ≡ value b
    → has p s.allbase ≡ true
    → block_type (s.refs p) ≡ b
    → (s.refs p).nfree ≡ 0

-- What a call of `kmalloc` comes to: no page for the block, no pageref for the page, which is given
-- back, no pages, whole pages, or a block of the heap.
pub data Kmalloced (s : Heap) (fls : ℕ → List ℕ) (alloc_kpages : ℕ → ℕ) (sz : ℕ)
    : Checked (ℕ × Heap) → Type 0 where
  no_page :
      sz < 2048
      → NoneFree s sz
      → alloc_kpages 1 ≡ 0
      → Kmalloced s fls alloc_kpages sz (value (0, s))
  no_pageref :
      sz < 2048
      → NoneFree s sz
      → alloc_kpages 1 ≢ 0
      → ((p : ℕ) → p < 4096 → in_use s.roots p ≡ true)
      → Kmalloced s fls alloc_kpages sz (value (0, record s { freed = alloc_kpages 1 ∷ s.freed }))
  no_pages :
      2048 ≤ sz
      → alloc_kpages ((sz + 4095) % 2 ^ 32 / 4096) ≡ 0
      → Kmalloced s fls alloc_kpages sz (value (0, s))
  whole_pages :
      2048 ≤ sz
      → alloc_kpages ((sz + 4095) % 2 ^ 32 / 4096) ≢ 0
      → Kmalloced s fls alloc_kpages sz (value (alloc_kpages ((sz + 4095) % 2 ^ 32 / 4096), s))
  block :
      {p j : ℕ} {s' : Heap} {fls' : ℕ → List ℕ}
      → Adds s fls s' fls' p j
      → sz ≤ sizes (block_type (s'.refs p))
      → address s' p j ≢ 0
      → Kmalloced s fls alloc_kpages sz (value (address s' p j, s'))

module _ {s : Heap} {fls : ℕ → List ℕ} (ok : IsHeap s fls) (alloc_kpages : ℕ → ℕ) (sz : ℕ) where
  -- A block of page `p` of the heap `s1`, whose allocated blocks are those of `s`.
  module _ (s1 : Heap) (fls1 : ℕ → List ℕ) (ok1 : IsHeap s1 fls1)
      (keeps : (q i : ℕ) → IsLive s fls q i → Keeps s fls s1 fls1 q i)
      (only : (q i : ℕ) → IsLive s1 fls1 q i → IsLive s fls q i) (p : ℕ)
      (there : has p s1.allbase ≡ true) (fits : sz ≤ sizes (block_type (s1.refs p)))
      (some_free : 0 < (s1.refs p).nfree) where
    take_lem : (fl : List ℕ) → fls1 p ≡ fl → Kmalloced s fls alloc_kpages sz (doalloc s1 p)
    take_lem [] e =
        let z = count-none (blocks (block_type (s1.refs p))) in
        let n : (s1.refs p).nfree ≡ count (λ j. has j []) (blocks (block_type (s1.refs p))) =
          subst (λ l. (s1.refs p).nfree ≡ count (λ j. has j l) (blocks (block_type (s1.refs p)))) e
            (ok1.page p there).nfree in
        absurd (omega (arith, z, n, some_free))
    take_lem (j ∷ js) e =
        let adds = doalloc-Adds ok1 p there j js e in
        let pg = subst (IsPage s1.word (s1.refs p)) e (ok1.page p there) in
        let here : put s1.refs p (taken_ref (s1.refs p) js) p ≡ taken_ref (s1.refs p) js =
          put_here s1.refs p (taken_ref (s1.refs p) js) in
        let same : address (set_ref s1 p (taken_ref (s1.refs p) js)) p j ≡ address s1 p j =
          ap {A = Pageref} {B = ℕ} (λ r. pageaddr r + j * sizes (block_type r)) here in
        rw (doalloc_lem ok1 p there j js pg) (
          subst
            (λ a.
              Kmalloced s fls alloc_kpages sz (value (a, set_ref s1 p (taken_ref (s1.refs p) js))))
            same
            (block
              (record {
                heap = adds.heap;
                live = adds.live;
                new = λ l. adds.new ((keeps p j l).0);
                keeps = λ q i l.
                    let (l1, a1, t1, w1) = keeps q i l in
                    let (l2, a2, t2, w2) = adds.keeps q i l1 in
                    (
                      l2,
                      a2 ∙ a1,
                      t2 ∙ t1,
                      λ a lo hi.
                          w2 a (subst (λ x. x ≤ a) (sym a1) lo)
                            (subst (λ x. a < x) (sym (ap₂ (λ x y. x + sizes y) a1 t1)) hi)
                          ∙ w1 a lo hi,
                    );
                only =
                    λ q i l. elim (adds.only q i l) [ inl e ↦ inl e | inr l1 ↦ inr (only q i l1) ];
              })
              (subst (λ b. sz ≤ sizes b) (sym (ap {A = Pageref} {B = ℕ} block_type here)) fits)
              (λ z. omega (arith, sym same ∙ z, pg.some_page))))

  module _ (va : ℕ) (some_va : va ≢ 0) (va_page : va % 4096 ≡ 0)
      (fresh : (n : ℕ) → IsFresh s (alloc_kpages n)) where
    on_pageref_lem :
        (b : ℕ) {r : Checked (Option ℕ × Roots)}
        → b < 8
        → sz ≤ sizes b
        → sz < 2048
        → NoneFree s sz
        → alloc_kpages 1 ≢ 0
        → Slot s.roots r
        → Kmalloced s fls alloc_kpages sz (on_pageref s (alloc_kpages 1) b r)
    on_pageref_lem b small fits below full some_page (no_slot used) =
        no_pageref below full some_page used
    on_pageref_lem b small fits below full some_page
          (new_slot {p = p} {roots' = roots'} inside free roots_ok taken rooted pages) =
        let page = alloc_kpages 1 in
        let s1 : Heap = new_page p page b (record s { roots = roots' }) in
        let fls1 : ℕ → List ℕ = put fls p (down (blocks b)) in
        let (first_there, first_type, first_some) =
          fresh-first ok page b (fresh 1) some_page small p roots' inside free roots_ok taken rooted
            pages in
        take_lem s1 fls1
          (IsHeap-fresh ok page b (fresh 1) some_page small p roots' inside free roots_ok taken
            rooted pages)
          (fresh-Keeps ok page b (fresh 1) some_page small p roots' inside free roots_ok taken
            rooted pages)
          (fresh-only ok page b (fresh 1) some_page small p roots' inside free roots_ok taken rooted
            pages)
          p first_there (subst (λ k. sz ≤ sizes k) (sym first_type) fits) first_some _ refl

    on_free_lem :
        (b : ℕ) {r : Checked (Option ℕ)}
        → blocktype sz ≡ value b
        → b < 8
        → sz ≤ sizes b
        → sz < 2048
        → FoundFree s.refs (s.sizebases b) r
        → Kmalloced s fls alloc_kpages sz (on_free (alloc_kpages 1) va s b r)
    on_free_lem b type small fits below (none_free full) = elim (Bool-cases (alloc_kpages 1 == 0)) [
      | inl z ↦ rw z (no_page below (none_left full) (==→eq _ 0 z))
      | inr some_page ↦
          rw (some_page, eq→== (alloc_kpages 1 % 4096) 0 (fresh 1).at_page)
            (on_pageref_lem b small fits below (none_left full) (==→ne (alloc_kpages 1) 0 some_page)
              (allocpageref-Slot va some_va va_page s.roots ok.roots))
    ]
      where
        same_type : (c d : ℕ) → value c ≡ value d → c ≡ d
        same_type c d h = cc

        none_left : ((p : ℕ) → has p (s.sizebases b) ≡ true → (s.refs p).nfree ≡ 0) → NoneFree s sz
        none_left full c p run there of_type =
            full p (
              ok.listed b p ∙ rw (there, eq→== _ b (of_type ∙ same_type c b (sym run ∙ type))) refl)
    on_free_lem b type small fits below (some_free {p = p} h some_) =
        let (there, of_type) = both (sym (ok.listed b p) ∙ h) in
        take_lem s fls ok (λ q i l. (l, refl, refl, λ a lo hi. refl)) (λ q i l. l) p there
          (subst (λ k. sz ≤ sizes k) (sym (==→eq _ b of_type)) fits) some_ _ refl
      where
        both : {x y : Bool} → (x && y) ≡ true → (x ≡ true) × (y ≡ true)
        both {x = true} {y = y} h = (refl, h)
        both {x = false} {y = y} h = absurd (true-false (sym h))

    subpage_lem :
        sz < 2048 → Kmalloced s fls alloc_kpages sz (subpage_kmalloc (alloc_kpages 1) va sz s)
    unfolding subpage_kmalloc
    subpage_lem small =
        let (b, run, b_small, fits) = blocktype_lem sz (omega (arith, small)) in
        rw run (
          on_free_lem b run b_small fits small
            (find_free_lem s.refs b (s.sizebases b) (λ p h. type_of b p (sym (ok.listed b p) ∙ h))))
      where
        type_of :
            (b p : ℕ)
            → (has p s.allbase && (block_type (s.refs p) == b)) ≡ true
            → (block_type (s.refs p) == b) ≡ true
        type_of b p h = second (has p s.allbase) h
          where
            second : (x : Bool) {y : Bool} → (x && y) ≡ true → y ≡ true
            second true h = h
            second false h = absurd (true-false (sym h))

    -- `kmalloc` on a heap in order, where a page for pagerefs can be had and `alloc_kpages` hands out
    -- pages that the heap does not have, or NULL, does not panic. For 2048 bytes or more it hands out
    -- what `alloc_kpages` does for the bytes in whole pages, the sum that rounds up taken modulo 2^32,
    -- NULL too. For less it comes to NULL if no page of the block type has a free block and there is
    -- no page either, the heap as it was, or all the pagerefs are in use, where the page that it got
    -- is given back; or to a block that is big enough and was not allocated. Of the blocks of the heap
    -- that one becomes allocated and no other, and those that are allocated keep their places and
    -- contents.
    pub kmalloc-Kmalloced : Kmalloced s fls alloc_kpages sz (kmalloc alloc_kpages va sz s)
    unfolding kmalloc
    kmalloc-Kmalloced = elim (Bool-cases (leb 2048 sz)) [
      | inl large ↦
          let address = alloc_kpages ((sz + 4095) % 2 ^ 32 / 4096) in
          rw large (elim (Bool-cases (address == 0)) [
            | inl z ↦ rw z (no_pages (ground (arith, large)) (==→eq _ 0 z))
            | inr some_ ↦
                rw (some_, eq→== (address % 4096) 0 (fresh ((sz + 4095) % 2 ^ 32 / 4096)).at_page)
                  (whole_pages (ground (arith, large)) (==→ne _ 0 some_))
          ])
      | inr small ↦ rw small (subpage_lem (ground (arith, small)))
    ]
