-- ===== src/Vm/Kmalloc/Unlink.antt =====
-- Taking a page off the lists of the heap.
use ops_class.Base.{
  ℕ, ◌≡◌, ◌≢◌, inl, inr, refl, sym, ◌∙◌, ap, Bool-cases, Bool, true, false, ◌&&◌, not, ◌==◌, ==→eq,
  ==→ne, eq→==, ne→==, List, [], ◌∷◌,
}
use ops_class.Base.Run.{value}
use ops_class.Vm.Kmalloc.{Heap, block_type, unlinked, remove_lists}
use ops_class.Vm.Kmalloc.Count.{put, has, Distinct}
use ops_class.Vm.Kmalloc.Valid.{IsHeap}
use ops_class.Vm.Kmalloc.Alloc.{true-false}
use ops_class.Vm.Kmalloc.Pagerefs.{Roots}
use ops_class.Vm.Kmalloc.Pagerefs.Slots.{FreedSlot}

and_true : (x : Bool) → x ≡ (x && true)
and_true true = refl
and_true false = refl

pub and_false : (x : Bool) → (x && false) ≡ false
and_false true = refl
and_false false = refl

and_first : (x y : Bool) → (x && y) ≡ true → x ≡ true
and_first true y h = refl
and_first false y h = h

and_swap : (x y z : Bool) → ((x && y) && z) ≡ ((x && z) && y)
and_swap true true z = and_true z
and_swap true false z = sym (and_false z)
and_swap false y z = refl

pub has-unlinked :
    (p q : ℕ) (ps : List ℕ) → Distinct ps → has q (unlinked p ps) ≡ (has q ps && not (p == q))
unfolding unlinked
has-unlinked p q [] d = refl
has-unlinked p q (x ∷ xs) (dx, d) = elim (Bool-cases (x == p)) [
  | inl e ↦ rw e (elim (Bool-cases (x == q)) [
    | inl f ↦
        rw (f, eq→== p q (sym (==→eq x p e) ∙ ==→eq x q f))
          (ap (λ k. has k xs) (sym (==→eq x q f)) ∙ dx)
    | inr f ↦ rw (f, ne→== p q (λ z. ==→ne x q f (==→eq x p e ∙ z))) (and_true (has q xs))
  ])
  | inr ne ↦ rw ne (elim (Bool-cases (x == q)) [
    | inl f ↦ rw (f, ne→== p q (λ z. ==→ne x p ne (==→eq x q f ∙ sym z))) refl
    | inr f ↦ rw f (has-unlinked p q xs d)
  ])
]

Distinct-unlinked : (p : ℕ) (ps : List ℕ) → Distinct ps → Distinct (unlinked p ps)
unfolding unlinked
Distinct-unlinked p [] d = tt
Distinct-unlinked p (x ∷ xs) (dx, d) = elim (Bool-cases (x == p)) [
  | inl e ↦ rw e d
  | inr ne ↦ rw ne (has-unlinked p x xs d ∙ rw dx refl, Distinct-unlinked p xs d)
]

-- The page `p` is taken off the lists.
module _ {s : Heap} {fls : ℕ → List ℕ} (ok : IsHeap s fls) (p : ℕ) (there : has p s.allbase ≡ true)
    (roots' : Roots) (freed' : List ℕ) (freed : FreedSlot s.roots p (value roots')) where
  abbrev pub without : Heap
  without = record (remove_lists p (block_type (s.refs p)) s) { roots = roots'; freed = freed' }

  pub listed_then : (q : ℕ) → has q without.allbase ≡ true → (p ≢ q) × (has q s.allbase ≡ true)
  listed_then q h = elim (Bool-cases (p == q)) [
    | inl e ↦ absurd (
        true-false
          (sym h ∙ has-unlinked p q s.allbase ok.once ∙ rw e (and_false (has q s.allbase))))
    | inr ne ↦ (
      ==→ne p q ne,
      and_first (has q s.allbase) (not (p == q)) (sym (has-unlinked p q s.allbase ok.once) ∙ h),
    )
  ]

  listed_lem :
      (b q : ℕ)
      → has q (
          put s.sizebases
            (block_type (s.refs p))
            (unlinked p (s.sizebases (block_type (s.refs p))))
            b)
        ≡ (has q (unlinked p s.allbase) && (block_type (s.refs q) == b))
  listed_lem b q = elim (Bool-cases (block_type (s.refs p) == b)) [
    | inl e ↦
        let same = ==→eq (block_type (s.refs p)) b e in
        rw
          (
            e,
            has-unlinked p q (s.sizebases (block_type (s.refs p)))
                (ok.once_each (block_type (s.refs p))),
            has-unlinked p q s.allbase ok.once,
            ok.listed (block_type (s.refs p)) q,
            same,
          )
          (and_swap (has q s.allbase) (block_type (s.refs q) == b) (not (p == q)))
    | inr ne ↦
        rw (ne, has-unlinked p q s.allbase ok.once, ok.listed b q)
          (elim (Bool-cases (p == q)) [
            | inl f ↦
                let other : (block_type (s.refs q) == b) ≡ false =
                  ap (λ k. block_type (s.refs k) == b) (sym (==→eq p q f)) ∙ ne in
                rw (other, f)
                  (and_false (has q s.allbase) ∙ sym (and_false (has q s.allbase && false)))
            | inr f ↦
                rw f (ap (λ x. x && (block_type (s.refs q) == b)) (and_true (has q s.allbase)))
          ])
  ]

  once_lem :
      (b : ℕ)
      → Distinct (
          put s.sizebases
            (block_type (s.refs p))
            (unlinked p (s.sizebases (block_type (s.refs p))))
            b)
  once_lem b = elim (Bool-cases (block_type (s.refs p) == b)) [
    | inl e ↦ rw e (Distinct-unlinked p _ (ok.once_each (block_type (s.refs p))))
    | inr ne ↦ rw ne (ok.once_each b)
  ]

  pub IsHeap-without : IsHeap without fls
  IsHeap-without =
      let (roots_ok, in_use_, pages) = freed in
      record {
        page = λ q h. ok.page q ((listed_then q h).1);
        listed = listed_lem;
        once = Distinct-unlinked p s.allbase ok.once;
        once_each = once_lem;
        apart = λ q r h h' z. ok.apart q r ((listed_then q h).1) ((listed_then r h').1) z;
        used =
            λ q h. let (ne, was) = listed_then q h in in_use_ q ∙ rw (ne→== p q ne) (ok.used q was);
        rooted = λ q h.
            let (small, all) = ok.rooted q ((listed_then q h).1) in
            (small, λ r l z. all r l (sym (pages r) ∙ z));
        roots = roots_ok;
      }
