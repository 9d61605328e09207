-- ===== src/Vm/Kmalloc/Valid.antt =====
-- A heap in order: its pages, their free lists, and the lists of the pages.
use ops_class.Base.{
  ℕ, ◌+◌, ◌-◌, ◌*◌, ◌%◌, ◌^◌, ◌≤◌, ◌<◌, ◌≡◌, ◌≢◌, ◌⊎◌, inl, inr, refl, sym, ◌∙◌, ap, arith,
  Bool-cases, true, false, ◌&&◌, ◌==◌, ==→eq, ==→ne, eq→==, List, [], ◌∷◌,
}
use ops_class.Vm.Kmalloc.{sizes, Pageref, Heap, pageaddr, block_type, invalid_offset}
use ops_class.Vm.Kmalloc.Count.{put, has, count, Distinct, put_other}
use ops_class.Vm.Kmalloc.Sizes.{blocks, size_lem, block_end}
use ops_class.Vm.Kmalloc.Pagerefs.Slots.{in_use, IsRoots, Rooted}

-- The address of the first free block, or NULL; and the offset.
abbrev pub first_free : ℕ → ℕ → List ℕ → ℕ
first_free page size [] = 0
first_free page size (j ∷ js) = page + j * size

abbrev pub offset_of : ℕ → List ℕ → ℕ
offset_of size [] = invalid_offset
offset_of size (j ∷ js) = j * size

-- The first word of each free block points to the next.
abbrev pub Threaded : (ℕ → ℕ) → ℕ → ℕ → List ℕ → Type 0
Threaded word page size [] = Unit
Threaded word page size (j ∷ js) =
    (word (page + j * size) ≡ first_free page size js) × Threaded word page size js

-- A page whose free blocks, in the order of its free list, are those of `fl`.
pub record IsPage (word : ℕ → ℕ) (pr : Pageref) (fl : List ℕ) : Type 0 where
  pub type : block_type pr < 8
  pub some_page : 0 < pageaddr pr
  pub high : pageaddr pr + 4096 < 2 ^ 32
  pub threaded : Threaded word (pageaddr pr) (sizes (block_type pr)) fl
  pub offset : pr.freelist_offset ≡ offset_of (sizes (block_type pr)) fl
  pub once : Distinct fl
  pub below : (j : ℕ) → has j fl ≡ true → j < blocks (block_type pr)
  pub nfree : pr.nfree ≡ count (λ j. has j fl) (blocks (block_type pr))

-- `fls` has the free list of each page.
pub record IsHeap (s : Heap) (fls : ℕ → List ℕ) : Type 0 where
  pub page : (p : ℕ) → has p s.allbase ≡ true → IsPage s.word (s.refs p) (fls p)
  pub listed : (b p : ℕ) → has p (s.sizebases b) ≡ (has p s.allbase && (block_type (s.refs p) == b))
  pub once : Distinct s.allbase
  pub once_each : (b : ℕ) → Distinct (s.sizebases b)
  pub apart :
      (p q : ℕ)
      → has p s.allbase ≡ true
      → has q s.allbase ≡ true
      → pageaddr (s.refs p) ≡ pageaddr (s.refs q)
      → p ≡ q
  pub used : (p : ℕ) → has p s.allbase ≡ true → in_use s.roots p ≡ true
  pub rooted : (p : ℕ) → has p s.allbase ≡ true → (p < 4096) × Rooted s.roots p
  pub roots : IsRoots s.roots

-- Block `j` of page `p` is allocated; its address and size.
pub record IsLive (s : Heap) (fls : ℕ → List ℕ) (p j : ℕ) : Type 0 where
  pub listed : has p s.allbase ≡ true
  pub inside : j < blocks (block_type (s.refs p))
  pub taken : has j (fls p) ≡ false

abbrev pub address : Heap → ℕ → ℕ → ℕ
address s p j = pageaddr (s.refs p) + j * sizes (block_type (s.refs p))

pub Threaded-words :
    (word word' : ℕ → ℕ) (page size : ℕ) (fl : List ℕ)
    → ((j : ℕ) → has j fl ≡ true → word' (page + j * size) ≡ word (page + j * size))
    → Threaded word page size fl
    → Threaded word' page size fl
Threaded-words word word' page size [] same t = tt
Threaded-words word word' page size (j ∷ js) same (e, t) = (
  same j (rw (eq→== j j refl) refl) ∙ e,
  Threaded-words word word' page size js (λ k h. same k (has_later k j js h)) t,
)
  where
    has_later : (k j : ℕ) (js : List ℕ) → has k js ≡ true → has k (j ∷ js) ≡ true
    has_later k j js h = elim (Bool-cases (j == k)) [ inl e ↦ rw e refl | inr ne ↦ rw ne h ]

-- A page stays in order when the words on it stay.
pub IsPage-words :
    {word word' : ℕ → ℕ} {pr : Pageref} {fl : List ℕ}
    → IsPage word pr fl
    → ((a : ℕ) → pageaddr pr ≤ a → a < pageaddr pr + 4096 → word' a ≡ word a)
    → IsPage word' pr fl
IsPage-words {word = word} {word' = word'} {pr = pr} {fl = fl} ok same = record {
  type = ok.type;
  some_page = ok.some_page;
  high = ok.high;
  threaded =
      Threaded-words word word' (pageaddr pr) (sizes (block_type pr)) fl
        (λ j h.
          let is = size_lem (block_type pr) ok.type in
          let end = block_end (block_type pr) j is (ok.below j h) in
          same (pageaddr pr + j * sizes (block_type pr)) (omega arith)
            (omega (arith, end, is.least)))
        ok.threaded;
  offset = ok.offset;
  once = ok.once;
  below = ok.below;
  nfree = ok.nfree;
}

-- Pagerefs after a change to one of them that keeps its page and block type.
module _ (refs : ℕ → Pageref) (p : ℕ) (pr : Pageref)
    (same : pr.pageaddr_and_blocktype ≡ (refs p).pageaddr_and_blocktype) where
  pab_lem : (q : ℕ) → (put refs p pr q).pageaddr_and_blocktype ≡ (refs q).pageaddr_and_blocktype
  pab_lem q = elim (Bool-cases (p == q)) [
    | inl e ↦
        let here : put refs p pr q ≡ pr = rw e refl in
        ap {A = Pageref} {B = ℕ} (λ r. r.pageaddr_and_blocktype) here
        ∙ same
        ∙ ap (λ r. (refs r).pageaddr_and_blocktype) (==→eq p q e)
    | inr ne ↦
        ap {A = Pageref} {B = ℕ} (λ r. r.pageaddr_and_blocktype)
          (put_other refs p q pr (==→ne p q ne))
  ]

  pub block_type-put : (q : ℕ) → block_type (put refs p pr q) ≡ block_type (refs q)
  block_type-put q = ap (λ x. x % 4096) (pab_lem q)

  pub pageaddr-put : (q : ℕ) → pageaddr (put refs p pr q) ≡ pageaddr (refs q)
  pageaddr-put q = ap (λ x. x - x % 4096) (pab_lem q)

  pub address-put :
      (q i : ℕ)
      → pageaddr (put refs p pr q) + i * sizes (block_type (put refs p pr q))
        ≡ pageaddr (refs q) + i * sizes (block_type (refs q))
  address-put q i = ap (λ x. (x - x % 4096) + i * sizes (x % 4096)) (pab_lem q)

-- The heap after a change to the free list of one page.
module _ {s : Heap} {fls : ℕ → List ℕ} (ok : IsHeap s fls) (p : ℕ) (there : has p s.allbase ≡ true)
    (word' : ℕ → ℕ) (pr : Pageref) (fl : List ℕ)
    (same : pr.pageaddr_and_blocktype ≡ (s.refs p).pageaddr_and_blocktype)
    (page' : IsPage word' pr fl)
    (kept : (a : ℕ)
      → (a < pageaddr (s.refs p)) ⊎ (pageaddr (s.refs p) + 4096 ≤ a)
      → word' a ≡ s.word a) where
  page_lem : (q : ℕ) → has q s.allbase ≡ true → IsPage word' (put s.refs p pr q) (put fls p fl q)
  page_lem q h = elim (Bool-cases (p == q)) [
    | inl e ↦ rw e page'
    | inr ne ↦
        let apart : pageaddr (s.refs p) ≢ pageaddr (s.refs q) =
          λ z. ==→ne p q ne (ok.apart p q there h z) in
        rw ne (IsPage-words (ok.page q h) (λ a l g. kept a (omega (arith, apart))))
  ]

  pub IsHeap-page : IsHeap (record s { word = word'; refs = put s.refs p pr }) (put fls p fl)
  IsHeap-page = record {
    page = page_lem;
    listed = λ b q.
        ok.listed b q
        ∙ ap (λ x. has q s.allbase && (x == b)) (sym (block_type-put s.refs p pr same q));
    once = ok.once;
    once_each = ok.once_each;
    apart = λ a b ha hb z.
        ok.apart a b ha hb
          (sym (pageaddr-put s.refs p pr same a) ∙ z ∙ pageaddr-put s.refs p pr same b);
    used = ok.used;
    rooted = ok.rooted;
    roots = ok.roots;
  }
