-- ===== src/Vm/Kmalloc/Release.antt =====
-- `kfree` of a block of the heap.
use ops_class.Base.{
  ℕ, ◌+◌, ◌-◌, ◌*◌, ◌/◌, ◌%◌, ◌^◌, ◌≤◌, ◌<◌, ◌≡◌, ◌≢◌, ◌⊎◌, inl, inr, refl, sym, ◌∙◌, ap, subst,
  arith, Bool-cases, Bool, true, false, not, ◌==◌, ltb, leb, ==→eq, ==→ne, eq→==, ne→==, List, ◌∷◌,
  le→ltb,
}
use ops_class.Base.Run.{Checked, value, panic}
use ops_class.Vm.Kmalloc.{
  sizes, Pageref, Heap, pageaddr, block_type, invalid_offset, deadbeef, remove_lists, release_page,
  counted_free, put_back, free_block, subpage_kfree, free_pages, kfree,
}
use ops_class.Vm.Kmalloc.Count.{put, has, count-all}
use ops_class.Vm.Kmalloc.Sizes.{blocks, size_lem, block_end, block_apart, mul_mod}
use ops_class.Vm.Kmalloc.Valid.{
  IsPage, IsHeap, IsLive, address, first_free, offset_of, IsHeap-page, block_type-put, address-put,
}
use ops_class.Vm.Kmalloc.Alloc.{Keeps, true-false}
use ops_class.Vm.Kmalloc.Unlink.{without, listed_then, IsHeap-without, has-unlinked, and_false}
use ops_class.Vm.Kmalloc.Free.{
  find_page_lem, kept_lem, in_page, most, next_lem, not_next_lem, one_more, IsPage-freed,
}
use ops_class.Vm.Kmalloc.Pagerefs.{Roots}
use ops_class.Vm.Kmalloc.Pagerefs.Slots.{FreedSlot, freepageref-FreedSlot}

-- Block `j` of page `p` is allocated no longer; the others stay.
pub record Removes (s : Heap) (fls : ℕ → List ℕ) (s' : Heap) (fls' : ℕ → List ℕ) (p j : ℕ)
    : Type 0 where
  pub heap : IsHeap s' fls'
  pub gone : IsLive s' fls' p j → ⊥
  pub keeps : (q i : ℕ) → ((q ≡ p) × (i ≡ j) → ⊥) → IsLive s fls q i → Keeps s fls s' fls' q i
  pub only : (q i : ℕ) → IsLive s' fls' q i → IsLive s fls q i

-- What `kfree` of the block comes to.
pub data Kfreed (s : Heap) (fls : ℕ → List ℕ) (p j : ℕ) : Checked Heap → Type 0 where
  kfreed : {s' : Heap} {fls' : ℕ → List ℕ} → Removes s fls s' fls' p j → Kfreed s fls p j (value s')

-- The heap with the block on the free list, and what `kfree` makes of it.
module _ {s : Heap} {fls : ℕ → List ℕ} (ok : IsHeap s fls) (p j : ℕ) (live : IsLive s fls p j) where
  abbrev pr : Pageref
  pr = s.refs p

  pg : IsPage s.word pr (fls p)
  pg = ok.page p live.listed

  abbrev size : ℕ
  size = sizes (block_type pr)

  abbrev ptr : ℕ
  ptr = pageaddr pr + j * size

  abbrev words' : ℕ → ℕ
  words' = put (deadbeef ptr (size / 4) s.word) ptr (first_free (pageaddr pr) size (fls p))

  abbrev ref' : Pageref
  ref' = record pr { freelist_offset = j * size; nfree = pr.nfree + 1 }

  abbrev listed_free : Heap
  listed_free = record s { word = words'; refs = put s.refs p ref' }

  abbrev fls' : ℕ → List ℕ
  fls' = put fls p (j ∷ fls p)

  words_kept : (a : ℕ) → (a < ptr) ⊎ (ptr + size ≤ a) → words' a ≡ s.word a
  words_kept = kept_lem s.word pr (fls p) pg j live.inside live.taken

  inside_page : j * size + size ≤ 4096
  inside_page = in_page s.word pr (fls p) pg j live.inside live.taken

  IsHeap-listed : IsHeap listed_free fls'
  IsHeap-listed =
      IsHeap-page ok p live.listed words' ref' (j ∷ fls p) refl
        (IsPage-freed s.word pr (fls p) pg j live.inside live.taken)
        (λ a h.
          words_kept a (elim h [
            | inl l ↦ inl (omega (arith, l))
            | inr l ↦ inr (omega (arith, l, inside_page))
          ]))

  -- An address in another allocated block is not in the block.
  other_block :
      (q i a : ℕ)
      → ((q ≡ p) × (i ≡ j) → ⊥)
      → IsLive s fls q i
      → address s q i ≤ a
      → a < address s q i + sizes (block_type (s.refs q))
      → (a < ptr) ⊎ (ptr + size ≤ a)
  other_block q i a ne l lo hi =
      let end =
        block_end (block_type (s.refs q)) i (size_lem _ (ok.page q l.listed).type) l.inside in
      elim (Bool-cases (q == p)) [
        | inl e ↦
            let same = ==→eq q p e in
            let lo' = subst (λ k. address s k i ≤ a) same lo in
            let hi' = subst (λ k. a < address s k i + sizes (block_type (s.refs k))) same hi in
            elim (block_apart i j size (λ f. ne (same, f))) [
              | inl h ↦ inl (omega (arith, h, hi'))
              | inr h ↦ inr (omega (arith, h, lo'))
            ]
        | inr e ↦
            let apart : pageaddr (s.refs q) ≢ pageaddr pr =
              λ z. ==→ne q p e (ok.apart q p l.listed live.listed z) in
            elim (Bool-cases (ltb (pageaddr (s.refs q)) (pageaddr pr))) [
              | inl h ↦ inl (ground (arith, h, apart, hi, end))
              | inr h ↦ inr (ground (arith, h, apart, lo, inside_page))
            ]
      ]

  keeps_lem :
      (q i : ℕ) → ((q ≡ p) × (i ≡ j) → ⊥) → IsLive s fls q i → Keeps s fls listed_free fls' q i
  keeps_lem q i ne l = (
    record {
      listed = l.listed;
      inside = rw (block_type-put s.refs p ref' refl q) l.inside;
      taken = elim (Bool-cases (p == q)) [
        | inl e ↦
            let same = ==→eq p q e in
            rw (e, ne→== j i (λ z. ne (sym same, sym z))) (ap (λ k. has i (fls k)) same ∙ l.taken)
        | inr f ↦ rw f l.taken
      ];
    },
    address-put s.refs p ref' refl q i,
    block_type-put s.refs p ref' refl q,
    λ a lo hi. words_kept a (other_block q i a ne l lo hi),
  )

  only_lem : (q i : ℕ) → IsLive listed_free fls' q i → IsLive s fls q i
  only_lem q i l = record {
    listed = l.listed;
    inside = rw (block_type-put s.refs p ref' refl q) at l.inside;
    taken = elim (Bool-cases (p == q)) [
      | inl e ↦
          let free_then : has i (j ∷ fls p) ≡ false = rw e at l.taken in
          ap (λ k. has i (fls k)) (sym (==→eq p q e)) ∙ not_later i free_then
      | inr f ↦ rw f at l.taken
    ];
  }
    where
      not_later : (i : ℕ) → has i (j ∷ fls p) ≡ false → has i (fls p) ≡ false
      not_later i h = elim (Bool-cases (j == i)) [
        | inl e ↦ absurd (true-false (rw e at h))
        | inr ne ↦ rw ne at h
      ]

  Removes-listed : Removes s fls listed_free fls' p j
  Removes-listed = record {
    heap = IsHeap-listed;
    gone = λ l. true-false (sym (rw (eq→== p p refl, eq→== j j refl) refl) ∙ l.taken);
    keeps = keeps_lem;
    only = only_lem;
  }

  -- With every block of the page free, the page goes.
  module _ (full : pr.nfree + 1 ≡ blocks (block_type pr)) (roots' : Roots)
      (freed : FreedSlot s.roots p (value roots')) where
    all_free : (i : ℕ) → i < blocks (block_type pr) → has i (j ∷ fls p) ≡ true
    all_free i h =
        count-all (λ k. has k (j ∷ fls p)) i (blocks (block_type pr))
          (one_more s.word pr (fls p) pg j live.inside live.taken ∙ full) h

    not_here : (q i : ℕ) → p ≡ q → IsLive listed_free fls' q i → ⊥
    not_here q i e l =
        let inside_then : i < blocks (block_type pr) =
          subst (λ k. i < blocks (block_type (s.refs k))) (sym e)
            (rw (block_type-put s.refs p ref' refl q) at l.inside) in
        let taken_then : has i (j ∷ fls p) ≡ false = rw (eq→== p q e) at l.taken in
        true-false (sym (all_free i inside_then) ∙ taken_then)

    Removes-without :
        (freed' : List ℕ)
        → Removes s fls (without IsHeap-listed p live.listed roots' freed' freed) fls' p j
    Removes-without freed' = record {
      heap = IsHeap-without IsHeap-listed p live.listed roots' freed' freed;
      gone = λ l. (listed_then IsHeap-listed p live.listed roots' freed' freed p l.listed).0 refl;
      keeps = λ q i ne l.
          let (l1, a1, t1, w1) = keeps_lem q i ne l in
          (
            record {
              listed =
                  has-unlinked p q s.allbase ok.once
                  ∙ rw (ne→== p q (λ e. not_here q i e l1), l.listed) refl;
              inside = l1.inside;
              taken = l1.taken;
            },
            a1,
            t1,
            w1,
          );
      only = λ q i l. only_lem q i (record {
        listed = (listed_then IsHeap-listed p live.listed roots' freed' freed q l.listed).1;
        inside = l.inside;
        taken = l.taken;
      });
    }

  -- The block is free, and the call has found it on a page of the heap.
  abbrev Released : Checked (Bool × Heap) → Type 0
  Released (value (true, s')) = (fls'' : ℕ → List ℕ) × Removes s fls s' fls'' p j
  Released (value (false, s')) = ⊥
  Released panic = ⊥

  release_lem :
      pr.nfree + 1 ≡ blocks (block_type pr)
      → (r : Checked Roots) → FreedSlot s.roots p r
      → (page b : ℕ) → block_type pr ≡ b
      → Released (release_page (remove_lists p b listed_free) page r)
  release_lem full (value roots') freed page b e = (
    fls',
    subst
        (λ k.
          Removes s fls
            (record (remove_lists p k listed_free) { roots = roots'; freed = page ∷ s.freed }) fls'
            p j)
        e
        (subst
          (λ k.
            Removes s fls
              (record (remove_lists p k listed_free) { roots = roots'; freed = page ∷ s.freed })
              fls' p j)
          (block_type-put s.refs p ref' refl p)
          (Removes-without full roots' freed (page ∷ s.freed))),
  )
  release_lem full panic freed page b e = absurd freed

  counted_lem : Released (counted_free listed_free p size (pr.nfree + 1))
  counted_lem =
      let (small, rooted) = ok.rooted p live.listed in
      rw
        (le→ltb (blocks (block_type pr)) (pr.nfree + 1)
          (most s.word pr (fls p) pg j live.inside live.taken))
        (elim (Bool-cases (pr.nfree + 1 == blocks (block_type pr))) [
          | inl full ↦ rw full (
              release_lem (==→eq (pr.nfree + 1) (blocks (block_type pr)) full) _
                (freepageref-FreedSlot s.roots ok.roots p (ok.used p live.listed) rooted small)
                (pageaddr (put s.refs p ref' p)) (block_type (put s.refs p ref' p))
                (sym (block_type-put s.refs p ref' refl p)))
          | inr some_ ↦ rw some_ (fls', Removes-listed)
        ])

  put_back_lem :
      Released (put_back s p ptr (j * size) (first_free (pageaddr pr) size (fls p)) (pr.nfree + 1))
  unfolding put_back
  put_back_lem = counted_lem

  free_block_lem : Released (free_block s p ptr)
  unfolding free_block
  free_block_lem =
      let is = size_lem (block_type pr) pg.type in
      let off : ptr - pageaddr pr ≡ j * size = omega arith in
      let in_range : leb 4096 (j * size) ≡ false = ground (arith, inside_page, is.least) in
      let few : (pr.nfree + 1) % 2 ^ 16 ≡ pr.nfree + 1 =
        omega (arith, most s.word pr (fls p) pg j live.inside live.taken, is.few_blocks) in
      rw
        (
          off,
          in_range,
          mul_mod j size,
          pg.offset,
          next_lem s.word pr (fls p) pg j live.inside live.taken (fls p) pg.below,
          not_next_lem s.word pr (fls p) pg j live.inside live.taken (fls p) live.taken
              pg.some_page,
          and_false (not (offset_of size (fls p) == invalid_offset)),
          few,
        )
        put_back_lem

  pages_lem : (r : Checked (Bool × Heap)) → Released r → Kfreed s fls p j (free_pages ptr r)
  pages_lem (value (true, s')) (f, h) = kfreed h
  pages_lem (value (false, s')) h = absurd h
  pages_lem panic h = absurd h

  -- `kfree` of an allocated block of a heap in order neither panics nor takes it for whole pages: the
  -- block is allocated no longer, every other allocated block stays where it is with its contents, none
  -- becomes allocated, and the heap is in order.
  pub kfree-Kfreed : Kfreed s fls p j (kfree (address s p j) s)
  unfolding kfree subpage_kfree
  kfree-Kfreed =
      let is = size_lem (block_type pr) pg.type in
      let found =
        find_page_lem s.refs ptr p s.allbase live.listed (omega arith)
          (omega (arith, inside_page, is.least)) (λ q h. (ok.page q h).type)
          (λ q h. (ok.page q h).high) (λ q h z. ok.apart p q live.listed h z) in
      rw (ne→== ptr 0 (λ z. omega (arith, pg.some_page)), found) (pages_lem _ free_block_lem)
