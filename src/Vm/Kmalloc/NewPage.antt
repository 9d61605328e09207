-- ===== src/Vm/Kmalloc/NewPage.antt =====
-- The heap with a new page.
use ops_class.Base.{
  ℕ, ◌+◌, ◌*◌, ◌%◌, ◌^◌, ◌≤◌, ◌<◌, ◌≡◌, ◌≢◌, ◌⊎◌, inl, inr, refl, sym, ◌∙◌, ap, subst, arith,
  Bool-cases, true, false, ◌&&◌, ◌==◌, ltb, ==→eq, ==→ne, eq→==, ne→==, List, ◌∷◌,
}
use ops_class.Vm.Kmalloc.{sizes, Pageref, Heap, pageaddr, block_type, new_page}
use ops_class.Vm.Kmalloc.Count.{put, has, Distinct, put_here, put_other}
use ops_class.Vm.Kmalloc.Sizes.{blocks, size_lem, block_end}
use ops_class.Vm.Kmalloc.Valid.{IsPage, IsHeap, IsLive, IsPage-words}
use ops_class.Vm.Kmalloc.Alloc.{Keeps, true-false}
use ops_class.Vm.Kmalloc.Pagerefs.{Roots}
use ops_class.Vm.Kmalloc.Pagerefs.Slots.{in_use, IsRoots, Rooted}
use ops_class.Vm.Kmalloc.Fresh.{
  down, has-down, new_ref, new_words, kept_lem, IsPage-new, type_lem, addr_lem,
}

-- A page that `alloc_kpages` may hand out.
pub record IsFresh (s : Heap) (page : ℕ) : Type 0 where
  pub at_page : page % 4096 ≡ 0
  pub high : page + 4096 < 2 ^ 32
  pub new : (q : ℕ) → has q s.allbase ≡ true → pageaddr (s.refs q) ≢ page

module _ {s : Heap} {fls : ℕ → List ℕ} (ok : IsHeap s fls) (page b : ℕ) (fresh : IsFresh s page)
    (some_page : page ≢ 0) (small : b < 8) (p : ℕ) (roots' : Roots) (inside : p < 4096)
    (free : in_use s.roots p ≡ false) (roots_ok : IsRoots roots')
    (taken : (q : ℕ) → in_use roots' q ≡ put (in_use s.roots) p true q) (rooted : Rooted roots' p)
    (pages : (r : ℕ) → (s.roots r).page ≢ 0 → (roots' r).page ≢ 0) where
  abbrev pub with_page : Heap
  with_page = new_page p page b (record s { roots = roots' })

  abbrev pub with_blocks : ℕ → List ℕ
  with_blocks = put fls p (down (blocks b))

  not_there : has p s.allbase ≡ false
  not_there = elim (Bool-cases (has p s.allbase)) [
    | inl h ↦ absurd (true-false (sym (ok.used p h) ∙ free))
    | inr h ↦ h
  ]

  old : (q : ℕ) → has q s.allbase ≡ true → p ≢ q
  old q h e = true-false (sym h ∙ ap (λ k. has k s.allbase) (sym e) ∙ not_there)

  addr_new : pageaddr (put s.refs p (new_ref page b) p) ≡ page
  addr_new =
      ap {A = Pageref} {B = ℕ} pageaddr (put_here s.refs p (new_ref page b))
      ∙ addr_lem page b fresh.at_page some_page fresh.high small

  refs_old : (q : ℕ) → p ≢ q → put s.refs p (new_ref page b) q ≡ s.refs q
  refs_old q ne = put_other s.refs p q (new_ref page b) ne

  apart_old : (q : ℕ) → p ≢ q → pageaddr (put s.refs p (new_ref page b) q) ≡ pageaddr (s.refs q)
  apart_old q ne = ap {A = Pageref} {B = ℕ} pageaddr (refs_old q ne)

  words_kept :
      (q a : ℕ)
      → has q s.allbase ≡ true
      → pageaddr (s.refs q) ≤ a
      → a < pageaddr (s.refs q) + 4096
      → new_words page b s.word a ≡ s.word a
  words_kept q a h l g = kept_lem page b fresh.at_page some_page fresh.high small s.word a (
      let ne = fresh.new q h in
      elim (Bool-cases (ltb a page)) [
        | inl lt ↦ inl (ground (arith, lt))
        | inr ge ↦ inr (ground (arith, ge, ne, fresh.at_page, l, g))
      ])

  -- A page that is listed now is the new one or was listed before.
  view : (q : ℕ) → has q (p ∷ s.allbase) ≡ true → (p ≡ q) ⊎ ((p ≢ q) × (has q s.allbase ≡ true))
  view q h = elim (Bool-cases (p == q)) [
    | inl e ↦ inl (==→eq p q e)
    | inr ne ↦ inr (==→ne p q ne, rw ne at h)
  ]

  page_lem :
      (q : ℕ)
      → (p ≡ q) ⊎ ((p ≢ q) × (has q s.allbase ≡ true))
      → IsPage (new_words page b s.word) (put s.refs p (new_ref page b) q) (with_blocks q)
  page_lem q (inl e) =
      subst
        (λ q. IsPage (new_words page b s.word) (put s.refs p (new_ref page b) q) (with_blocks q)) e
        (rw (eq→== p p refl) (IsPage-new page b fresh.at_page some_page fresh.high small s.word))
  page_lem q (inr (ne, h)) =
      rw (ne→== p q ne) (IsPage-words (ok.page q h) (λ a l g. words_kept q a h l g))

  listed_lem :
      (b' q : ℕ)
      → has q (put s.sizebases b (p ∷ s.sizebases b) b')
        ≡ (has q (p ∷ s.allbase) && (block_type (put s.refs p (new_ref page b) q) == b'))
  listed_lem b' q = elim (Bool-cases (p == q)) [
    | inl e ↦
        let here = ==→eq p q e in
        let was : has q (s.sizebases b') ≡ false =
          ok.listed b' q
          ∙ ap (λ x. x && (block_type (s.refs q) == b'))
              (ap (λ k. has k s.allbase) (sym here) ∙ not_there) in
        let type_here : block_type (put s.refs p (new_ref page b) q) ≡ b =
          ap {A = Pageref} {B = ℕ} block_type (at_p q e)
          ∙ type_lem page b fresh.at_page some_page fresh.high small in
        rw (type_here, e)
          (elim (Bool-cases (b == b')) [
            | inl same ↦ rw (same, e) refl
            | inr other ↦ rw (other, was) refl
          ])
    | inr ne ↦
        let type_there : block_type (put s.refs p (new_ref page b) q) ≡ block_type (s.refs q) =
          ap {A = Pageref} {B = ℕ} block_type (refs_old q (==→ne p q ne)) in
        rw (type_there, ne)
          (elim (Bool-cases (b == b')) [
            | inl same ↦
                rw (same, ne) (ap (λ k. has q (s.sizebases k)) (==→eq b b' same) ∙ ok.listed b' q)
            | inr other ↦ rw other (ok.listed b' q)
          ])
  ]
    where
      at_p : (q : ℕ) → (p == q) ≡ true → put s.refs p (new_ref page b) q ≡ new_ref page b
      at_p q e = rw e refl

  once_lem : (b' : ℕ) → Distinct (put s.sizebases b (p ∷ s.sizebases b) b')
  once_lem b' = elim (Bool-cases (b == b')) [
    | inl same ↦
        rw same
          (ok.listed b p ∙ ap (λ x. x && (block_type (s.refs p) == b)) not_there, ok.once_each b)
    | inr other ↦ rw other (ok.once_each b')
  ]

  apart_lem :
      (q r : ℕ)
      → (p ≡ q) ⊎ ((p ≢ q) × (has q s.allbase ≡ true))
      → (p ≡ r) ⊎ ((p ≢ r) × (has r s.allbase ≡ true))
      → pageaddr (put s.refs p (new_ref page b) q) ≡ pageaddr (put s.refs p (new_ref page b) r)
      → q ≡ r
  apart_lem q r (inl e) (inl f) z = sym e ∙ f
  apart_lem q r (inl e) (inr (ne, h)) z = absurd (
      fresh.new r h (
        sym (apart_old r ne)
        ∙ sym z
        ∙ ap (λ k. pageaddr (put s.refs p (new_ref page b) k)) (sym e)
        ∙ addr_new))
  apart_lem q r (inr (ne, h)) (inl f) z = absurd (
      fresh.new q h (
        sym (apart_old q ne)
        ∙ z
        ∙ ap (λ k. pageaddr (put s.refs p (new_ref page b) k)) (sym f)
        ∙ addr_new))
  apart_lem q r (inr (ne, h)) (inr (ne', h')) z =
      ok.apart q r h h' (sym (apart_old q ne) ∙ z ∙ apart_old r ne')

  used_lem : (q : ℕ) → (p ≡ q) ⊎ ((p ≢ q) × (has q s.allbase ≡ true)) → in_use roots' q ≡ true
  used_lem q (inl e) = taken q ∙ rw (eq→== p q e) refl
  used_lem q (inr (ne, h)) = taken q ∙ rw (ne→== p q ne) (ok.used q h)

  rooted_lem :
      (q : ℕ) → (p ≡ q) ⊎ ((p ≢ q) × (has q s.allbase ≡ true)) → (q < 4096) × Rooted roots' q
  rooted_lem q (inl e) = subst (λ k. (k < 4096) × Rooted roots' k) e (inside, rooted)
  rooted_lem q (inr (ne, h)) =
      let (small_, all) = ok.rooted q h in (small_, λ r l. pages r (all r l))

  pub IsHeap-fresh : IsHeap with_page with_blocks
  unfolding new_page
  IsHeap-fresh = record {
    page = λ q h. page_lem q (view q h);
    listed = listed_lem;
    once = (not_there, ok.once);
    once_each = once_lem;
    apart = λ q r h h' z. apart_lem q r (view q h) (view r h') z;
    used = λ q h. used_lem q (view q h);
    rooted = λ q h. rooted_lem q (view q h);
    roots = roots_ok;
  }

  -- No block of the new page is allocated, and the others stay.
  pub fresh-Keeps : (q i : ℕ) → IsLive s fls q i → Keeps s fls with_page with_blocks q i
  unfolding new_page
  fresh-Keeps q i live =
      let ne = old q live.listed in
      let same = refs_old q ne in
      let pg = ok.page q live.listed in
      (
        record {
          listed = rw (ne→== p q ne) live.listed;
          inside = subst (λ r. i < blocks (block_type r)) (sym same) live.inside;
          taken = rw (ne→== p q ne) live.taken;
        },
        ap {A = Pageref} {B = ℕ} (λ r. pageaddr r + i * sizes (block_type r)) same,
        ap {A = Pageref} {B = ℕ} block_type same,
        λ a l g.
            let end =
              block_end (block_type (s.refs q)) i (size_lem (block_type (s.refs q)) pg.type)
                live.inside in
            words_kept q a live.listed (omega arith) (omega (arith, end)),
      )

  pub fresh-only : (q i : ℕ) → IsLive with_page with_blocks q i → IsLive s fls q i
  unfolding new_page
  fresh-only q i live = elim (view q live.listed) [
    | inl e ↦
        let all_free : has i (with_blocks q) ≡ true =
          subst (λ k. has i (with_blocks k) ≡ true) e
            (rw (eq→== p p refl) (has-down i (blocks b) (inside_new e))) in
        absurd (true-false (sym all_free ∙ live.taken))
    | inr (ne, h) ↦ record {
      listed = h;
      inside = subst (λ r. i < blocks (block_type r)) (refs_old q ne) live.inside;
      taken = rw (ne→== p q ne) at live.taken;
    }
  ]
    where
      inside_new : p ≡ q → i < blocks b
      inside_new e =
          subst (λ k. i < blocks k) (type_lem page b fresh.at_page some_page fresh.high small)
            (subst (λ r. i < blocks (block_type r)) (put_here s.refs p (new_ref page b))
              (subst (λ k. i < blocks (block_type (put s.refs p (new_ref page b) k))) (sym e)
                live.inside))

  -- What is needed to take a block from it.
  pub fresh-first :
      (has p with_page.allbase ≡ true)
      × (block_type (with_page.refs p) ≡ b)
      × (0 < (with_page.refs p).nfree)
  unfolding new_page
  fresh-first =
      let here = put_here s.refs p (new_ref page b) in
      (
        rw (eq→== p p refl) refl,
        ap {A = Pageref} {B = ℕ} block_type here
            ∙ type_lem page b fresh.at_page some_page fresh.high small,
        subst (λ r. 0 < r.nfree) (sym here) (omega (arith, (size_lem b small).some_blocks)),
      )
