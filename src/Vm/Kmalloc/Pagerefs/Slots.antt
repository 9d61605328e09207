-- ===== src/Vm/Kmalloc/Pagerefs/Slots.antt =====
-- The pagerefs in use, as `allocpageref` and `freepageref` change them.
use ops_class.Base.{
  ℕ, zero, suc, ◌+◌, ◌*◌, ◌/◌, ◌%◌, ◌≤◌, ◌<◌, ◌≡◌, ◌≢◌, refl, sym, ◌∙◌, ap, inl, inr, ◌⊎◌, Bool,
  true, false, Option, none, some, ◌==◌, leb, arith, Bool-cases, ==→eq, ==→ne, eq→==, ne→==, lt→ltb,
  subst, dec_lt,
}
use ops_class.Base.Run.{Checked, value, panic}
use ops_class.Vm.Kmalloc.Count.{put, count, count-put, count-full, count-below, count-all}
use ops_class.Vm.Kmalloc.Pagerefs.{
  Root, Roots, first_clear, allocpagerefpage, marked, take_slot, found_slot, alloc_from,
  allocpageref, unmarked, free_from, freepageref,
}

abbrev pub in_use : Roots → ℕ → Bool
in_use roots p = (roots (p / 256)).inuse (p % 256)

-- `numinuse` counts the bits, and only a root with a page has any.
pub record IsRoot (root : Root) : Type 0 where
  pub counted : root.numinuse ≡ count root.inuse 256
  pub unused : root.page ≡ 0 → root.numinuse ≡ 0

abbrev pub IsRoots : Roots → Type 0
IsRoots roots = (r : ℕ) → IsRoot (roots r)

-- The roots up to that of the pageref `p` have a page.
abbrev pub Rooted : Roots → ℕ → Type 0
Rooted roots p = (r : ℕ) → r ≤ p / 256 → (roots r).page ≢ 0

first_clear_lem :
    (f : ℕ → Bool) (j n k : ℕ) → first_clear f j n ≡ some k → (j ≤ k) × (k < j + n) × (f k ≡ false)
unfolding first_clear
first_clear_lem f j zero k e = absurd (cc)
first_clear_lem f j (suc n) k e = elim (Bool-cases (f j)) [
  | inl t ↦
      let (a, b, c) = first_clear_lem f (j + 1) n k (rw t at e) in
      (omega (arith, a), omega (arith, b), c)
  | inr ff ↦
      let same : j ≡ k = some_inj j k (rw ff at e) in
      (omega (arith, same), omega (arith, same), subst (λ i. f i ≡ false) same ff)
]
  where
    some_inj : (a b : ℕ) → some a ≡ some b → a ≡ b
    some_inj a b h = cc

first_clear-none :
    (f : ℕ → Bool) (j n : ℕ) → first_clear f j n ≡ none → (k : ℕ) → j ≤ k → k < j + n → f k ≡ true
unfolding first_clear
first_clear-none f j zero e k l h = absurd (omega arith)
first_clear-none f j (suc n) e k l h = elim (Bool-cases (f j)) [
  | inl t ↦ elim (Bool-cases (j == k)) [
    | inl same ↦ subst (λ i. f i ≡ true) (==→eq j k same) t
    | inr ne ↦
        first_clear-none f (j + 1) n (rw t at e) k (omega (arith, ==→ne j k ne)) (omega arith)
  ]
  | inr ff ↦ absurd (some_none j (rw ff at e))
]
  where
    some_none : (a : ℕ) → some a ≡ none → ⊥
    some_none a h = cc

-- What `allocpageref` comes to.
pub data Slot (roots : Roots) : Checked (Option ℕ × Roots) → Type 0 where
  no_slot : ((p : ℕ) → p < 4096 → in_use roots p ≡ true) → Slot roots (value (none, roots))
  new_slot :
      {p : ℕ} {roots' : Roots}
      → p < 4096
      → in_use roots p ≡ false
      → IsRoots roots'
      → ((q : ℕ) → in_use roots' q ≡ put (in_use roots) p true q)
      → Rooted roots' p
      → ((r : ℕ) → (roots r).page ≢ 0 → (roots' r).page ≢ 0)
      → Slot roots (value (some p, roots'))

pub in_use-put :
    (roots : Roots) (r k : ℕ) (root : Root) (v : Bool)
    → k < 256
    → ((j : ℕ) → root.inuse j ≡ put (roots r).inuse k v j)
    → (q : ℕ) → in_use (put roots r root) q ≡ put (in_use roots) (r * 256 + k) v q
in_use-put roots r k root v h same q = elim (Bool-cases (r == q / 256)) [
  | inl e ↦
      let e' = ==→eq r (q / 256) e in
      let here : put roots r root (q / 256) ≡ root = rw e refl in
      ap {A = Root} {B = Bool} (λ s. s.inuse (q % 256)) here
      ∙ same (q % 256)
      ∙ elim (Bool-cases (k == q % 256)) [
        | inl f ↦ let f' = ==→eq k (q % 256) f in rw (f, eq→== (r * 256 + k) q (omega arith)) refl
        | inr f ↦
            let f' = ==→ne k (q % 256) f in
            rw (f, ne→== (r * 256 + k) q (λ z. omega arith))
              (ap {A = ℕ} {B = Bool} (λ s. (roots s).inuse (q % 256)) e')
      ]
  | inr ne ↦
      let ne' = ==→ne r (q / 256) ne in
      let other : put roots r root (q / 256) ≡ roots (q / 256) = rw ne refl in
      ap {A = Root} {B = Bool} (λ s. s.inuse (q % 256)) other
      ∙ rw (ne→== (r * 256 + k) q (λ z. omega arith)) refl
]

pub IsRoots-put :
    (roots : Roots) (r : ℕ) (root : Root) → IsRoots roots → IsRoot root → IsRoots (put roots r root)
IsRoots-put roots r root all one q = elim (Bool-cases (r == q)) [
  | inl e ↦ rw e one
  | inr ne ↦ rw ne (all q)
]

-- `r * 256 + k` is slot `k` of root `r`.
in_use-slot : (roots : Roots) (r k : ℕ) → k < 256 → in_use roots (r * 256 + k) ≡ (roots r).inuse k
in_use-slot roots r k h =
    ap {A = ℕ} {B = Bool} (λ i. (roots i).inuse ((r * 256 + k) % 256)) {x = (r * 256 + k) / 256}
      {y = r} (omega arith)
    ∙ ap {A = ℕ} {B = Bool} (roots r).inuse {x = (r * 256 + k) % 256} {y = k} (omega arith)

-- The pages of the roots stay, but for root `r`, which has one.
module _ (roots : Roots) (r : ℕ) (root : Root) (page : root.page ≢ 0) where
  put_page : (q : ℕ) → ((roots q).page ≢ 0) ⊎ (r ≡ q) → (put roots r root q).page ≢ 0
  put_page q h = elim (Bool-cases (r == q)) [
    | inl e ↦ rw e page
    | inr ne ↦ elim h [ inl g ↦ rw ne g | inr g ↦ absurd (==→ne r q ne g) ]
  ]

module _ (va : ℕ) (some_page : va ≢ 0) (at_page : va % 4096 ≡ 0) (roots : Roots)
    (ok : IsRoots roots) where
  -- Slot `k` of root `r` is marked and the root has a page then.
  module _ (r k : ℕ) (inside : r < 16) (h : k < 256) (clear : (roots r).inuse k ≡ false)
      (before : (q : ℕ) → q < r → (roots q).page ≢ 0) where
    slot_count : count (put (roots r).inuse k true) 256 ≡ (roots r).numinuse + 1
    slot_count =
        let c = count-put (roots r).inuse k 256 true h in
        omega (arith, (ok r).counted, rw clear at c)

    below : (q : ℕ) → q ≤ r → ((roots q).page ≢ 0) ⊎ (r ≡ q)
    below q l = elim (dec_lt q r) [ yes p ↦ inl (before q p) | no p ↦ inr (omega arith) ]

    marked_lem :
        (root : Root)
        → root.inuse ≡ put (roots r).inuse k true
        → root.numinuse ≡ (roots r).numinuse + 1
        → root.page ≢ 0
        → Slot roots (value (some (r * 256 + k), put roots r root))
    marked_lem root bits num page =
        (new_slot (omega arith) (in_use-slot roots r k h ∙ clear)
          (IsRoots-put roots r root ok (record {
            counted = num ∙ sym slot_count ∙ ap (λ f. count f 256) (sym bits);
            unused = λ z. absurd (page z);
          }))
          (in_use-put roots r k root true h (λ j. ap (λ f. f j) bits))
          (λ q l. put_page roots r root page q (below q (omega arith)))
          (λ q g. put_page roots r root page q (inl g)))

    take_lem : Slot roots (take_slot va roots r k)
    unfolding allocpagerefpage
    take_lem = elim (Bool-cases ((roots r).page == 0)) [
      | inl none_ ↦
          rw (none_, ne→== va 0 some_page, eq→== (va % 4096) 0 at_page, ne→== va 0 some_page)
            (marked_lem (record (marked (roots r) k) { page = va }) refl refl some_page)
      | inr page ↦ rw page (marked_lem (marked (roots r) k) refl refl (==→ne _ 0 page))
    ]

  -- Where every root is full, every pageref is in use.
  all_used :
      ((r : ℕ) → r < 16 → 256 ≤ (roots r).numinuse) → (p : ℕ) → p < 4096 → in_use roots p ≡ true
  all_used full p h =
      let most = count-below (roots (p / 256)).inuse 256 in
      count-all (roots (p / 256)).inuse (p % 256) 256
        (omega (arith, most, full (p / 256) (omega arith), (ok (p / 256)).counted)) (omega arith)

  full_below :
      (r : ℕ)
      → ((q : ℕ) → q < r → 256 ≤ (roots q).numinuse)
      → 256 ≤ (roots r).numinuse
      → (q : ℕ) → q < r + 1
      → 256 ≤ (roots q).numinuse
  full_below r before full q l = elim (dec_lt q r) [
    | yes p ↦ before q p
    | no p ↦ subst (λ i. 256 ≤ (roots i).numinuse) {x = r} {y = q} (omega arith) full
  ]

  -- A root that is full has a page.
  full_root : (r : ℕ) → 256 ≤ (roots r).numinuse → (roots r).page ≢ 0
  full_root r h z = omega (arith, (ok r).unused z)

  -- With what the later roots come to as `later`.
  found_lem :
      (r : ℕ) {later : Checked (Option ℕ × Roots)}
      → r < 16
      → ((q : ℕ) → q < r → (roots q).page ≢ 0)
      → (256 ≤ (roots r).numinuse → Slot roots later)
      → (o : Option ℕ) → first_clear (roots r).inuse 0 256 ≡ o
      → Slot roots (found_slot va roots r later o)
  found_lem r inside before go_on none e =
      let c =
        count-full (roots r).inuse 256
          (λ i l. first_clear-none _ 0 256 e i (omega arith) (omega arith)) in
      go_on (omega (arith, c, (ok r).counted))
  found_lem r inside before go_on (some k) e =
      let (a, b, c) = first_clear_lem (roots r).inuse 0 256 k e in
      take_lem r k inside (omega (arith, b)) c before

  alloc_from_lem :
      (r n : ℕ)
      → r + n ≡ 16
      → ((q : ℕ) → q < r → 256 ≤ (roots q).numinuse)
      → Slot roots (alloc_from va roots r n)
  unfolding alloc_from
  alloc_from_lem r zero e before = no_slot (all_used (λ q l. before q (omega arith)))
  alloc_from_lem r (suc n) e before = elim (Bool-cases (leb 256 (roots r).numinuse)) [
    | inl full ↦
        rw full
          (alloc_from_lem (r + 1) n (omega arith) (full_below r before (ground (arith, full))))
    | inr some_left ↦ rw some_left (
        found_lem r (omega arith) (λ q l. full_root q (before q l))
          (λ full. alloc_from_lem (r + 1) n (omega arith) (full_below r before full))
          (first_clear (roots r).inuse 0 256) refl)
  ]

  pub allocpageref-Slot : Slot roots (allocpageref va roots)
  unfolding allocpageref
  allocpageref-Slot = alloc_from_lem 0 16 refl (λ q l. absurd (omega arith))

-- What `freepageref` comes to.
abbrev pub FreedSlot : Roots → ℕ → Checked Roots → Type 0
FreedSlot roots p (value roots') =
    IsRoots roots'
    × ((q : ℕ) → in_use roots' q ≡ put (in_use roots) p false q)
    × ((r : ℕ) → (roots' r).page ≡ (roots r).page)
FreedSlot roots p panic = ⊥

module _ (roots : Roots) (ok : IsRoots roots) (p : ℕ) (used : in_use roots p ≡ true)
    (rooted : Rooted roots p) where
  used_some : 0 < (roots (p / 256)).numinuse
  used_some =
      let c = count-put (roots (p / 256)).inuse (p % 256) 256 false (omega arith) in
      omega (arith, (ok (p / 256)).counted, rw used at c)

  freed_lem : FreedSlot roots p (value (put roots (p / 256) (unmarked (roots (p / 256)) (p % 256))))
  freed_lem =
      let root = roots (p / 256) in
      let c = count-put root.inuse (p % 256) 256 false (omega arith) in
      (
        IsRoots-put roots (p / 256) (unmarked root (p % 256)) ok (record {
          counted = omega (arith, (ok (p / 256)).counted, rw used at c, used_some);
          unused = λ z. absurd (rooted (p / 256) (omega arith) z);
        }),
        λ q.
            in_use-put roots (p / 256) (p % 256) (unmarked root (p % 256)) false (omega arith)
              (λ j. refl) q
            ∙ ap (λ i. put (in_use roots) i false q) {x = p / 256 * 256 + p % 256} {y = p}
                (omega arith),
        λ q. elim (Bool-cases (p / 256 == q)) [
          | inl e ↦ rw e (ap (λ i. (roots i).page) (==→eq _ q e))
          | inr ne ↦ rw ne refl
        ],
      )

  free_from_lem :
      (r n : ℕ) → r ≤ p / 256 → p / 256 < r + n → FreedSlot roots p (free_from p roots r n)
  unfolding free_from
  free_from_lem r zero h l = absurd (omega arith)
  free_from_lem r (suc n) h l =
      rw (ne→== (roots r).page 0 (rooted r h)) (elim (Bool-cases (p / 256 == r)) [
        | inl e ↦
            let here = ==→eq _ r e in
            rw (e, sym here, used, lt→ltb 0 (roots (p / 256)).numinuse used_some) freed_lem
        | inr ne ↦
            let other = ==→ne _ r ne in rw ne (free_from_lem (r + 1) n (omega arith) (omega arith))
      ])

  pub freepageref-FreedSlot : p < 4096 → FreedSlot roots p (freepageref p roots)
  unfolding freepageref
  freepageref-FreedSlot small = free_from_lem 0 16 (omega arith) (omega arith)
