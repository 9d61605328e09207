-- ===== src/Vm/Kmalloc/Alloc.antt =====
-- Taking a block from the free list of a page.
use ops_class.Base.{
  ℕ, ◌+◌, ◌-◌, ◌*◌, ◌%◌, ◌^◌, ◌≤◌, ◌<◌, ◌≡◌, ◌⊎◌, inl, inr, refl, sym, ◌∙◌, ap, subst, arith,
  Bool-cases, true, false, ◌==◌, ==→eq, eq→==, ne→==, lt→ltb, List, [], ◌∷◌,
}
use ops_class.Base.Run.{value}
use ops_class.Vm.Kmalloc.{sizes, Pageref, Heap, pageaddr, block_type, set_ref, take_next, doalloc}
use ops_class.Vm.Kmalloc.Count.{put, has, count, put_here, count-put, count-none, count-below}
use ops_class.Vm.Kmalloc.Sizes.{blocks, IsSize, size_lem, block_end}
use ops_class.Vm.Kmalloc.Valid.{
  IsPage, IsHeap, IsLive, address, first_free, offset_of, IsHeap-page, block_type-put, address-put,
}

-- The blocks that are allocated stay so, where they are, and with what is in them.
abbrev pub Keeps : Heap → (ℕ → List ℕ) → Heap → (ℕ → List ℕ) → ℕ → ℕ → Type 0
Keeps s fls s' fls' q i =
    IsLive s' fls' q i
    × (address s' q i ≡ address s q i)
    × (block_type (s'.refs q) ≡ block_type (s.refs q))
    × ((a : ℕ)
        → address s q i ≤ a
        → a < address s q i + sizes (block_type (s.refs q))
        → s'.word a ≡ s.word a)

-- Block `j` of page `p` becomes allocated, and no other.
pub record Adds (s : Heap) (fls : ℕ → List ℕ) (s' : Heap) (fls' : ℕ → List ℕ) (p j : ℕ)
    : Type 0 where
  pub heap : IsHeap s' fls'
  pub live : IsLive s' fls' p j
  pub new : IsLive s fls p j → ⊥
  pub keeps : (q i : ℕ) → IsLive s fls q i → Keeps s fls s' fls' q i
  pub only : (q i : ℕ) → IsLive s' fls' q i → ((q ≡ p) × (i ≡ j)) ⊎ IsLive s fls q i

abbrev pub taken_ref : Pageref → List ℕ → Pageref
taken_ref pr js = record pr {
  freelist_offset = offset_of (sizes (block_type pr)) js;
  nfree = pr.nfree - 1;
}

-- One page, the first of whose free blocks is `j`.
module _ (word : ℕ → ℕ) (pr : Pageref) (j : ℕ) (js : List ℕ) (ok : IsPage word pr (j ∷ js)) where
  IsSize-ok : IsSize (block_type pr)
  IsSize-ok = size_lem (block_type pr) ok.type

  inside_lem : j < blocks (block_type pr)
  inside_lem = ok.below j (rw (eq→== j j refl) refl)

  one_less : count (λ i. has i js) (blocks (block_type pr)) + 1 ≡ pr.nfree
  one_less =
      let c = count-put (λ i. has i js) j (blocks (block_type pr)) true inside_lem in
      omega (arith, ok.nfree, rw ok.once.0 at c)

  few : pr.nfree ≤ 256
  few = omega (
    arith,
    ok.nfree,
    count-below (λ i. has i (j ∷ js)) (blocks (block_type pr)),
    IsSize-ok.few_blocks,
  )

  below_later : (i : ℕ) → has i js ≡ true → i < blocks (block_type pr)
  below_later i h = ok.below i (elim (Bool-cases (j == i)) [ inl e ↦ rw e refl | inr ne ↦ rw ne h ])

  IsPage-taken : IsPage word (taken_ref pr js) js
  IsPage-taken = record {
    type = ok.type;
    some_page = ok.some_page;
    high = ok.high;
    threaded = ok.threaded.1;
    offset = refl;
    once = ok.once.1;
    below = below_later;
    nfree = omega (arith, one_less);
  }

pub true-false : true ≡ false → ⊥
true-false h = cc

some_more :
    (word : ℕ → ℕ) (pr : Pageref) (j k : ℕ) (js : List ℕ)
    → IsPage word pr (j ∷ k ∷ js)
    → 2 ≤ pr.nfree
some_more word pr j k js ok =
    let c = one_less word pr j (k ∷ js) ok in
    let d = one_less word (taken_ref pr (k ∷ js)) k js (IsPage-taken word pr j (k ∷ js) ok) in
    omega (arith, c, d)

module _ {s : Heap} {fls : ℕ → List ℕ} (ok : IsHeap s fls) (p : ℕ)
    (there : has p s.allbase ≡ true) where
  take_next_lem :
      (j : ℕ) (js : List ℕ) (ret : ℕ)
      → IsPage s.word (s.refs p) (j ∷ js)
      → take_next s p ret
          (first_free (pageaddr (s.refs p)) (sizes (block_type (s.refs p))) js)
          (((s.refs p).nfree + (2 ^ 16 - 1)) % 2 ^ 16)
        ≡ value (ret, set_ref s p (taken_ref (s.refs p) js))
  unfolding take_next
  take_next_lem j [] ret pg =
      let c = one_less s.word (s.refs p) j [] pg in
      let z = count-none (blocks (block_type (s.refs p))) in
      let gone : ((s.refs p).nfree + (2 ^ 16 - 1)) % 2 ^ 16 ≡ 0 = omega (arith, c, z) in
      let less : 0 ≡ (s.refs p).nfree - 1 = omega (arith, c, z) in rw (gone, less) refl
  take_next_lem j (k ∷ js) ret pg =
      let size = sizes (block_type (s.refs p)) in
      let page = pageaddr (s.refs p) in
      let more = some_more s.word (s.refs p) j k js pg in
      let most = few s.word (s.refs p) j (k ∷ js) pg in
      let is = IsSize-ok s.word (s.refs p) j (k ∷ js) pg in
      let in_page : k * size + size ≤ 4096 =
        block_end (block_type (s.refs p)) k is
          (below_later s.word (s.refs p) j (k ∷ js) pg k (rw (eq→== k k refl) refl)) in
      let gone : ((s.refs p).nfree + (2 ^ 16 - 1)) % 2 ^ 16 ≡ (s.refs p).nfree - 1 =
        omega (arith, more, most) in
      let off : (page + k * size + 2 ^ 32 - page) % 2 ^ 32 ≡ k * size =
        omega (arith, in_page, pg.high) in
      rw
        (
          ne→== (page + k * size) 0 (λ z. omega (arith, pg.some_page)),
          gone,
          lt→ltb 0 ((s.refs p).nfree - 1) (omega (arith, more)),
          off,
          lt→ltb (k * size) 4096 (omega (arith, in_page, is.least)),
        )
        refl

  pub doalloc_lem :
      (j : ℕ) (js : List ℕ)
      → IsPage s.word (s.refs p) (j ∷ js)
      → doalloc s p ≡ value (address s p j, set_ref s p (taken_ref (s.refs p) js))
  unfolding doalloc
  doalloc_lem j js pg =
      let is = IsSize-ok s.word (s.refs p) j js pg in
      let in_page = block_end (block_type (s.refs p)) j is (inside_lem s.word (s.refs p) j js pg) in
      rw
        (
          pg.offset,
          lt→ltb (j * sizes (block_type (s.refs p))) 4096 (omega (arith, in_page, is.least)),
          pg.threaded.0,
        )
        (take_next_lem j js (address s p j) pg)

  -- The blocks that are allocated afterwards.
  module _ (j : ℕ) (js : List ℕ) (e : fls p ≡ j ∷ js) where
    abbrev after : Heap
    after = set_ref s p (taken_ref (s.refs p) js)

    pg : IsPage s.word (s.refs p) (j ∷ js)
    pg = subst (IsPage s.word (s.refs p)) e (ok.page p there)

    has_first : has j (fls p) ≡ true
    has_first = rw (e, eq→== j j refl) refl

    keeps_lem : (q i : ℕ) → IsLive s fls q i → Keeps s fls after (put fls p js) q i
    keeps_lem q i live = (
      record {
        listed = live.listed;
        inside = rw (block_type-put s.refs p (taken_ref (s.refs p) js) refl q) live.inside;
        taken = elim (Bool-cases (p == q)) [
          | inl h ↦ rw h (
              not_first i
                (subst (λ l. has i l ≡ false) (ap fls (sym (==→eq p q h)) ∙ e) live.taken))
          | inr ne ↦ rw ne live.taken
        ];
      },
      address-put s.refs p (taken_ref (s.refs p) js) refl q i,
      block_type-put s.refs p (taken_ref (s.refs p) js) refl q,
      λ a l h. refl,
    )
      where
        not_first : (i : ℕ) → has i (j ∷ js) ≡ false → has i js ≡ false
        not_first i h = elim (Bool-cases (j == i)) [
          | inl t ↦ absurd (true-false (rw t at h))
          | inr ne ↦ rw ne at h
        ]

    only_lem : (q i : ℕ) → IsLive after (put fls p js) q i → ((q ≡ p) × (i ≡ j)) ⊎ IsLive s fls q i
    only_lem q i live = elim (Bool-cases (p == q)) [
      | inl h ↦
          let here = ==→eq p q h in
          let free_then : has i js ≡ false = rw h at live.taken in
          elim (Bool-cases (j == i)) [
            | inl first ↦ inl (sym here, sym (==→eq j i first))
            | inr later ↦ inr (record {
              listed = live.listed;
              inside = inside_then;
              taken = subst (λ l. has i l ≡ false) (sym e ∙ ap fls here) (rw later free_then);
            })
          ]
      | inr ne ↦
          inr (record { listed = live.listed; inside = inside_then; taken = rw ne at live.taken })
    ]
      where
        inside_then : i < blocks (block_type (s.refs q))
        inside_then = rw (block_type-put s.refs p (taken_ref (s.refs p) js) refl q) at live.inside

    pub doalloc-Adds : Adds s fls after (put fls p js) p j
    doalloc-Adds = record {
      heap =
          IsHeap-page ok p there s.word (taken_ref (s.refs p) js) js refl
            (IsPage-taken s.word (s.refs p) j js pg) (λ a h. refl);
      live = record {
        listed = there;
        inside =
            rw (put_here s.refs p (taken_ref (s.refs p) js)) (inside_lem s.word (s.refs p) j js pg);
        taken = rw (put_here fls p js) pg.once.0;
      };
      new = λ live. absurd (true-false (sym has_first ∙ live.taken));
      keeps = keeps_lem;
      only = only_lem;
    }
