-- ===== src/Vm/Kmalloc/Fresh.antt =====
-- A new page of free blocks.
use ops_class.Base.{
  ℕ, zero, suc, ◌+◌, ◌-◌, ◌*◌, ◌%◌, ◌^◌, ◌≤◌, ◌<◌, ◌≡◌, ◌≢◌, ◌⊎◌, inl, inr, refl, sym, ◌∙◌, ap,
  subst, arith, Bool-cases, true, ◌==◌, ==→eq, ==→ne, List, [], ◌∷◌,
}
use ops_class.Vm.Kmalloc.{sizes, Pageref, pageaddr, block_type, mkpab, thread_list}
use ops_class.Vm.Kmalloc.Count.{put, has, count, Distinct, put_here, put_other, count-full}
use ops_class.Vm.Kmalloc.Sizes.{blocks, IsSize, size_lem, block_before}
use ops_class.Vm.Kmalloc.Valid.{IsPage, offset_of, Threaded, Threaded-words}
use ops_class.Vm.Kmalloc.Alloc.{true-false}

-- The numbers below `n`, from the last one down.
abbrev pub down : ℕ → List ℕ
down zero = []
down (suc n) = n ∷ down n

pub has-down : (j n : ℕ) → j < n → has j (down n) ≡ true
has-down j zero h = absurd (omega arith)
has-down j (suc n) h = elim (Bool-cases (n == j)) [
  | inl e ↦ rw e refl
  | inr ne ↦ rw ne (has-down j n (omega (arith, ==→ne n j ne)))
]

below-down : (j n : ℕ) → has j (down n) ≡ true → j < n
below-down j zero h = absurd (true-false (sym h))
below-down j (suc n) h = elim (Bool-cases (n == j)) [
  | inl e ↦ omega (arith, ==→eq n j e)
  | inr ne ↦ omega (arith, below-down j n (rw ne at h))
]

Distinct-down : (n : ℕ) → Distinct (down n)
Distinct-down zero = tt
Distinct-down (suc n) = (
  elim (Bool-cases (has n (down n))) [
    | inl h ↦ absurd (omega (arith, below-down n n h))
    | inr h ↦ h
  ],
  Distinct-down n,
)

offset-down : (n z : ℕ) → 0 < n → (n - 1) * z ≡ offset_of z (down n)
offset-down zero z h = absurd (omega arith)
offset-down (suc n) z h = ap (λ k. k * z) {x = suc n - 1} {y = n} (omega arith)

module _ (page z : ℕ) (some_size : 0 < z) where
  thread_lem :
      (i n : ℕ) (word : ℕ → ℕ)
      → 0 < i
      → Threaded word page z (down i)
      → Threaded (thread_list page z i n word) page z (down (i + n))
  unfolding thread_list
  thread_lem i zero word h t =
      subst (λ k. Threaded word page z (down k)) {x = i} {y = i + 0} (omega arith) t
  thread_lem zero (suc n) word h t = absurd (omega arith)
  thread_lem (suc i) (suc n) word h t =
      let word' = put word (page + suc i * z) (page + (suc i - 1) * z) in
      let step : Threaded word' page z (down (suc (suc i))) = (
        put_here word (page + suc i * z) (page + (suc i - 1) * z)
            ∙ ap (λ k. page + k * z) {x = suc i - 1} {y = i} (omega arith),
        Threaded-words word word' page z (down (suc i))
            (λ j l.
              put_other word (page + suc i * z) (page + j * z) _
                (λ e. omega (arith, e, block_before j (suc i) z (below-down j (suc i) l))))
            t,
      ) in
      subst (λ k. Threaded (thread_list page z (suc i + 1) n word') page z (down k))
        {x = suc i + 1 + n} {y = suc i + suc n} (omega arith)
        (thread_lem (suc i + 1) n word' (omega arith) (
          subst (λ k. Threaded word' page z (down k)) {x = suc (suc i)} {y = suc i + 1}
            (omega arith) step))

  -- Only words of the blocks are written.
  thread_kept :
      (i n a : ℕ) (word : ℕ → ℕ)
      → (a < page) ⊎ (page + (i + n) * z ≤ a)
      → thread_list page z i n word a ≡ word a
  unfolding thread_list
  thread_kept i zero a word h = refl
  thread_kept i (suc n) a word h =
      thread_kept (i + 1) n a (put word (page + i * z) (page + (i - 1) * z)) (
        subst (λ k. (a < page) ⊎ (page + k * z ≤ a)) {x = i + suc n} {y = i + 1 + n} (omega arith)
          h)
      ∙ put_other word (page + i * z) a _ (λ e. elim h [
        | inl l ↦ omega (arith, l, e)
        | inr l ↦ omega (arith, l, e, block_before i (i + suc n) z (omega arith))
      ])

abbrev pub new_ref : ℕ → ℕ → Pageref
new_ref page b = record {
  pageaddr_and_blocktype = mkpab page b;
  freelist_offset = (blocks b - 1) * sizes b;
  nfree = blocks b;
}

abbrev pub new_words : ℕ → ℕ → (ℕ → ℕ) → ℕ → ℕ
new_words page b word = thread_list page (sizes b) 1 (blocks b - 1) (put word page 0)

module _ (page b : ℕ) (at_page : page % 4096 ≡ 0) (some_page : page ≢ 0)
    (high : page + 4096 < 2 ^ 32) (small : b < 8) where
  is : IsSize b
  is = size_lem b small

  pub type_lem : block_type (new_ref page b) ≡ b
  type_lem = omega arith

  pub addr_lem : pageaddr (new_ref page b) ≡ page
  addr_lem = omega arith

  pub kept_lem :
      (word : ℕ → ℕ) (a : ℕ) → (a < page) ⊎ (page + 4096 ≤ a) → new_words page b word a ≡ word a
  kept_lem word a h =
      thread_kept page (sizes b) (omega (arith, is.least)) 1 (blocks b - 1) a (put word page 0)
        (elim h [
          | inl l ↦ inl l
          | inr l ↦
              let whole : (1 + (blocks b - 1)) * sizes b ≡ 4096 =
                ap (λ k. k * sizes b) {x = 1 + (blocks b - 1)} {y = blocks b}
                  (omega (arith, is.some_blocks))
                ∙ is.filled in
              inr (omega (arith, whole, l))
        ])
      ∙ put_other word page a 0 (λ e. elim h [ inl l ↦ omega arith | inr l ↦ omega arith ])

  threaded_lem : (word : ℕ → ℕ) → Threaded (new_words page b word) page (sizes b) (down (blocks b))
  threaded_lem word =
      subst (λ k. Threaded (new_words page b word) page (sizes b) (down k)) {x = 1 + (blocks b - 1)}
        {y = blocks b} (omega (arith, is.some_blocks))
        (thread_lem page (sizes b) (omega (arith, is.least)) 1 (blocks b - 1) (put word page 0)
          (omega arith)
          (
            subst (λ a. put word page 0 a ≡ 0) {x = page} {y = page + 0 * sizes b} (omega arith)
                (put_here word page 0),
            tt,
          ))

  pub IsPage-new :
      (word : ℕ → ℕ) → IsPage (new_words page b word) (new_ref page b) (down (blocks b))
  IsPage-new word = record {
    type = omega arith;
    some_page = omega arith;
    high = omega arith;
    threaded =
        subst
          (λ a.
            Threaded (new_words page b word) a (sizes (block_type (new_ref page b)))
              (down (blocks b)))
          (sym addr_lem)
          (subst (λ k. Threaded (new_words page b word) page (sizes k) (down (blocks b)))
            (sym type_lem) (threaded_lem word));
    offset =
        subst (λ k. (blocks b - 1) * sizes b ≡ offset_of (sizes k) (down (blocks b))) (sym type_lem)
          (offset-down (blocks b) (sizes b) (omega (arith, is.some_blocks)));
    once = Distinct-down (blocks b);
    below = λ j h. subst (λ k. j < blocks k) (sym type_lem) (below-down j (blocks b) h);
    nfree =
        subst (λ k. blocks b ≡ count (λ j. has j (down (blocks b))) (blocks k)) (sym type_lem)
          (sym (
            count-full (λ j. has j (down (blocks b))) (blocks b) (λ i h. has-down i (blocks b) h)));
  }
