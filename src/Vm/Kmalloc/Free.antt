-- ===== src/Vm/Kmalloc/Free.antt =====
-- Putting a block back on the free list of its page.
use ops_class.Base.{
  ℕ, zero, suc, ◌+◌, ◌*◌, ◌/◌, ◌%◌, ◌^◌, ◌≤◌, ◌<◌, ◌≡◌, ◌⊎◌, inl, inr, refl, sym, ◌∙◌, ap, subst,
  arith, Bool-cases, true, false, ◌&&◌, if◌then◌else◌, ◌==◌, ltb, leb, ==→eq, eq→==, ne→==, List,
  [], ◌∷◌, some, lt→ltb,
}
use ops_class.Base.Run.{value}
use ops_class.Vm.Kmalloc.{sizes, Pageref, pageaddr, block_type, invalid_offset, deadbeef, find_page}
use ops_class.Vm.Kmalloc.Count.{put, has, count, put_here, put_other, count-put, count-below}
use ops_class.Vm.Kmalloc.Sizes.{blocks, IsSize, size_lem, block_end, block_apart}
use ops_class.Vm.Kmalloc.Valid.{IsPage, first_free, offset_of, Threaded-words}
use ops_class.Vm.Kmalloc.Alloc.{true-false}

-- Only the words of the block are written.
deadbeef_kept :
    (ptr n : ℕ) (word : ℕ → ℕ) (a : ℕ)
    → (a < ptr) ⊎ (ptr + n * 4 ≤ a)
    → deadbeef ptr n word a ≡ word a
unfolding deadbeef
deadbeef_kept ptr zero word a h = refl
deadbeef_kept ptr (suc n) word a h =
    deadbeef_kept (ptr + 4) n (put word ptr 0xdead_beef) a
      (elim h [ inl l ↦ inl (omega arith) | inr l ↦ inr (omega arith) ])
    ∙ put_other word ptr a 0xdead_beef (λ e. elim h [ inl l ↦ omega arith | inr l ↦ omega arith ])

-- The page of an address is found.
pub find_page_lem :
    (refs : ℕ → Pageref) (a p : ℕ) (ps : List ℕ)
    → has p ps ≡ true
    → pageaddr (refs p) ≤ a
    → a < pageaddr (refs p) + 4096
    → ((q : ℕ) → has q ps ≡ true → block_type (refs q) < 8)
    → ((q : ℕ) → has q ps ≡ true → pageaddr (refs q) + 4096 < 2 ^ 32)
    → ((q : ℕ) → has q ps ≡ true → pageaddr (refs p) ≡ pageaddr (refs q) → p ≡ q)
    → find_page refs a ps ≡ value (some p)
unfolding find_page
find_page_lem refs a p [] h lo hi types high apart = absurd (true-false (sym h))
find_page_lem refs a p (q ∷ qs) h lo hi types high apart =
    let near : (pageaddr (refs q) + 4096) % 2 ^ 32 ≡ pageaddr (refs q) + 4096 =
      omega (arith, high q (rw (eq→== q q refl) refl)) in
    rw (near, lt→ltb (block_type (refs q)) 8 (types q (rw (eq→== q q refl) refl)))
      (elim (Bool-cases (leb (pageaddr (refs q)) a && ltb a (pageaddr (refs q) + 4096))) [
        | inl here ↦
            let same : pageaddr (refs p) ≡ pageaddr (refs q) = ground (arith, here, lo, hi) in
            rw (here, apart q (rw (eq→== q q refl) refl) same) refl
        | inr other ↦ rw other (elim (Bool-cases (q == p)) [
          | inl e ↦ absurd (true-false (sym (covered q (==→eq q p e)) ∙ other))
          | inr ne ↦
              find_page_lem refs a p qs (rw ne at h) lo hi (λ r l. types r (has_later r l))
                (λ r l. high r (has_later r l)) (λ r l. apart r (has_later r l))
        ])
      ])
  where
    has_later : (r : ℕ) → has r qs ≡ true → has r (q ∷ qs) ≡ true
    has_later r l = elim (Bool-cases (q == r)) [ inl e ↦ rw e refl | inr ne ↦ rw ne l ]

    covered :
        (q : ℕ) → q ≡ p → (leb (pageaddr (refs q)) a && ltb a (pageaddr (refs q) + 4096)) ≡ true
    covered q e = rw e (ground (arith, lo, hi))

-- One page, whose block `j` is put on the free list.
module _ (word : ℕ → ℕ) (pr : Pageref) (fl : List ℕ) (ok : IsPage word pr fl) (j : ℕ)
    (inside : j < blocks (block_type pr)) (taken : has j fl ≡ false) where
  abbrev size : ℕ
  size = sizes (block_type pr)

  abbrev ptr : ℕ
  ptr = pageaddr pr + j * size

  abbrev freed_words : ℕ → ℕ
  freed_words = put (deadbeef ptr (size / 4) word) ptr (first_free (pageaddr pr) size fl)

  abbrev freed_ref : Pageref
  freed_ref = record pr { freelist_offset = j * size; nfree = pr.nfree + 1 }

  is : IsSize (block_type pr)
  is = size_lem (block_type pr) ok.type

  pub in_page : j * size + size ≤ 4096
  in_page = block_end (block_type pr) j is inside

  pub kept_lem : (a : ℕ) → (a < ptr) ⊎ (ptr + size ≤ a) → freed_words a ≡ word a
  kept_lem a h =
      put_other (deadbeef ptr (size / 4) word) ptr a _
        (λ e. elim h [ inl l ↦ omega arith | inr l ↦ omega (arith, is.least) ])
      ∙ deadbeef_kept ptr (size / 4) word a
          (elim h [ inl l ↦ inl l | inr l ↦ inr (omega (arith, is.by_words, l)) ])

  pub one_more : count (λ i. has i (j ∷ fl)) (blocks (block_type pr)) ≡ pr.nfree + 1
  one_more =
      let c = count-put (λ i. has i fl) j (blocks (block_type pr)) true inside in
      omega (arith, ok.nfree, rw taken at c)

  pub most : pr.nfree + 1 ≤ blocks (block_type pr)
  most = omega (arith, one_more, count-below (λ i. has i (j ∷ fl)) (blocks (block_type pr)))

  -- The next entry of the free list, as `kfree` computes it.
  pub next_lem :
      (fl' : List ℕ)
      → ((i : ℕ) → has i fl' ≡ true → i < blocks (block_type pr))
      → (if offset_of size fl' == invalid_offset then 0 else pageaddr pr + offset_of size fl')
        ≡ first_free (pageaddr pr) size fl'
  next_lem [] below = refl
  next_lem (k ∷ ks) below =
      let end = block_end (block_type pr) k is (below k (rw (eq→== k k refl) refl)) in
      rw (ne→== (k * size) invalid_offset (λ z. omega (arith, end))) refl

  pub not_next_lem :
      (fl' : List ℕ)
      → has j fl' ≡ false
      → 0 < pageaddr pr
      → (ptr == first_free (pageaddr pr) size fl') ≡ false
  not_next_lem [] h some_ = ne→== ptr 0 (λ z. omega arith)
  not_next_lem (k ∷ ks) h some_ = ne→== ptr (pageaddr pr + k * size) (λ z.
      elim (block_apart j k size (λ e. true-false (sym (rw (eq→== k j (sym e)) refl) ∙ h))) [
        | inl l ↦ omega (arith, l, z, is.least)
        | inr l ↦ omega (arith, l, z, is.least)
      ])

  pub IsPage-freed : IsPage freed_words freed_ref (j ∷ fl)
  IsPage-freed = record {
    type = ok.type;
    some_page = ok.some_page;
    high = ok.high;
    threaded = (
      put_here (deadbeef ptr (size / 4) word) ptr (first_free (pageaddr pr) size fl),
      Threaded-words word freed_words (pageaddr pr) size fl
          (λ k h.
            kept_lem (pageaddr pr + k * size)
              (elim (block_apart k j size
                (λ e. true-false (sym h ∙ ap (λ i. has i fl) e ∙ taken))) [
                  | inl l ↦ inl (omega (arith, l, is.least))
                  | inr l ↦ inr (omega (arith, l))
                ]))
          ok.threaded,
    );
    offset = refl;
    once = (taken, ok.once);
    below = λ i h. elim (Bool-cases (j == i)) [
      | inl e ↦ subst (λ k. k < blocks (block_type pr)) (==→eq j i e) inside
      | inr ne ↦ ok.below i (rw ne at h)
    ];
    nfree = sym one_more;
  }
