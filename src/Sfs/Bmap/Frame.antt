-- ===== src/Sfs/Bmap/Frame.antt =====
-- Sane files stay sane: what keeps the map, and what adds one block to it.
use ops_class.Base.{
  ℕ, ◌-◌, ◌<◌, ◌≡◌, ◌≢◌, sym, ◌∙◌, true, false, ◌==◌, ltb, get_or, length, arith, inl, inr,
  Bool-cases, ◌≤◌, ltb→lt, ltb→le, ==→ne, ==→eq, List, ap, lt→ltb, le→ltb,
}
use ops_class.Bitmap.{isset}
use ops_class.Sfs.Device.{Contents}
use ops_class.Sfs.State.{Vnode, File}
use ops_class.Sfs.Balloc.Laws.{Ready}
use ops_class.Sfs.Bmap.{ndirect}
use ops_class.Sfs.Bmap.Map.{nmapped, slot, mapped, block_of, Sane}

slot-same :
    (c c' : ℕ → List ℕ) (indirect i : ℕ)
    → (indirect ≢ 0 → c' indirect ≡ c indirect)
    → slot c' indirect i ≡ slot c indirect i
unfolding slot
slot-same c c' indirect i h = elim (Bool-cases (indirect == 0)) [
  | inl none_ ↦ rw none_
  | inr some_ ↦ rw (some_, h (==→ne indirect 0 some_))
]

-- A block of the file keeps its place if its pointer does.
pub mapped-same :
    (c c' : ℕ → List ℕ) (sv sv' : Vnode) (k : ℕ)
    → sv'.indirect ≡ sv.indirect
    → (k < ndirect → get_or sv'.direct k 0 ≡ get_or sv.direct k 0)
    → (sv.indirect ≢ 0 → c' sv.indirect ≡ c sv.indirect)
    → mapped c' sv' k ≡ mapped c sv k
unfolding mapped
mapped-same c c' sv sv' k e direct stored = elim (Bool-cases (ltb k ndirect)) [
  | inl near ↦ rw near (direct (ltb→lt k ndirect near))
  | inr far ↦ rw (far, e, slot-same c c' sv.indirect (k - ndirect) stored)
]

-- The map where the inode's own pointers are, and where the indirect block's are.
pub mapped_near :
    (c : ℕ → List ℕ) (sv : Vnode) (k : ℕ) → k < ndirect → mapped c sv k ≡ get_or sv.direct k 0
unfolding mapped
mapped_near c sv k h = rw (lt→ltb k ndirect h)

pub mapped_far :
    (c : ℕ → List ℕ) (sv : Vnode) (k : ℕ)
    → ndirect ≤ k
    → k < nmapped
    → mapped c sv k ≡ slot c sv.indirect (k - ndirect)
unfolding mapped
mapped_far c sv k h l = rw (le→ltb k ndirect h, lt→ltb k nmapped l)

module _ {D : Type 0} {contents : D → Contents} {size : ℕ} (f f' : File D)
    (sane : Sane contents size f) (ready : Ready size f'.fs)
    (directs : length f'.sv.direct ≡ ndirect) (n : f'.fs.nblocks ≡ f.fs.nblocks)
    (used : (j : ℕ) → isset f.fs.freemap j ≡ true → isset f'.fs.freemap j ≡ true) where
  -- The map and the indirect block are as before.
  pub Sane-same :
      f'.sv.indirect ≡ f.sv.indirect
      → ((k : ℕ) → block_of contents f' k ≡ block_of contents f k)
      → Sane contents size f'
  Sane-same e same = record {
    ready = ready;
    directs = directs;
    pointers = λ k ne. rw (same k, n) (at k (rw (same k) at ne));
    index = λ ne. rw (e, n) (index_at (rw e at ne));
    apart = λ k l ne eq. sane.apart k l (rw (same k) at ne) (sym (same k) ∙ eq ∙ same l);
    apart_index = λ k ne eq. sane.apart_index k (rw (same k) at ne) (sym (same k) ∙ eq ∙ e);
  }
    where
      at :
          (k : ℕ)
          → block_of contents f k ≢ 0
          → (block_of contents f k < f.fs.nblocks)
            × (isset f'.fs.freemap (block_of contents f k) ≡ true)
      at k ne = ((sane.pointers k ne).0, used _ (sane.pointers k ne).1)

      index_at :
          f.sv.indirect ≢ 0
          → (f.sv.indirect < f.fs.nblocks) × (isset f'.fs.freemap f.sv.indirect ≡ true)
      index_at ne = ((sane.index ne).0, used _ (sane.index ne).1)

  module _ (b : ℕ) (inside : b < f.fs.nblocks) (free : isset f.fs.freemap b ≡ false)
      (now : isset f'.fs.freemap b ≡ true) where
    fresh : (j : ℕ) → isset f.fs.freemap j ≡ true → j ≢ b
    fresh j h e = absurd (cc (ap (isset f.fs.freemap) e))

    -- The map is as before, and `b` has become the indirect block.
    pub Sane-index :
        f'.sv.indirect ≡ b
        → ((k : ℕ) → block_of contents f' k ≡ block_of contents f k)
        → Sane contents size f'
    Sane-index e same = record {
      ready = ready;
      directs = directs;
      pointers = λ k ne. rw (same k, n) (at k (rw (same k) at ne));
      index = λ ne. rw (e, n) (inside, now);
      apart = λ k l ne eq. sane.apart k l (rw (same k) at ne) (sym (same k) ∙ eq ∙ same l);
      apart_index =
          λ k ne eq. fresh _ (sane.pointers k (rw (same k) at ne)).1 (sym (same k) ∙ eq ∙ e);
    }
      where
        at :
            (k : ℕ)
            → block_of contents f k ≢ 0
            → (block_of contents f k < f.fs.nblocks)
              × (isset f'.fs.freemap (block_of contents f k) ≡ true)
        at k ne = ((sane.pointers k ne).0, used _ (sane.pointers k ne).1)

    -- `b` has become block `fb` of the file, which had none.
    module _ (fb : ℕ) (e : f'.sv.indirect ≡ f.sv.indirect) (here : block_of contents f' fb ≡ b)
        (others : (k : ℕ) → k ≢ fb → block_of contents f' k ≡ block_of contents f k) where
      at_block :
          (k : ℕ)
          → block_of contents f' k ≢ 0
          → (block_of contents f' k < f'.fs.nblocks)
            × (isset f'.fs.freemap (block_of contents f' k) ≡ true)
      at_block k ne = elim (Bool-cases (k == fb)) [
        | inl is ↦ rw (==→eq k fb is, here, n) (inside, now)
        | inr other ↦
            let same = others k (==→ne k fb other) in
            let old = sane.pointers k (rw same at ne) in rw (same, n) (old.0, used _ old.1)
      ]

      apart_block :
          (k l : ℕ)
          → block_of contents f' k ≢ 0
          → block_of contents f' k ≡ block_of contents f' l
          → k ≡ l
      apart_block k l ne eq = elim (Bool-cases (k == fb)) [
        | inl is ↦ elim (Bool-cases (l == fb)) [
          | inl is' ↦ ==→eq k fb is ∙ sym (==→eq l fb is')
          | inr other ↦
              let same = others l (==→ne l fb other) in
              let at_k : block_of contents f' k ≡ b =
                ap (block_of contents f') (==→eq k fb is) ∙ here in
              absurd
                (fresh _ (sane.pointers l (λ z. ne (eq ∙ same ∙ z))).1 (sym same ∙ sym eq ∙ at_k))
        ]
        | inr other ↦
            let same = others k (==→ne k fb other) in
            let old = sane.pointers k (rw same at ne) in
            elim (Bool-cases (l == fb)) [
              | inl is ↦
                  let at_l : block_of contents f' l ≡ b =
                    ap (block_of contents f') (==→eq l fb is) ∙ here in
                  absurd (fresh _ old.1 (sym same ∙ eq ∙ at_l))
              | inr other' ↦
                  sane.apart k l (rw same at ne) (sym same ∙ eq ∙ others l (==→ne l fb other'))
            ]
      ]

      apart_index_block :
          (k : ℕ) → block_of contents f' k ≢ 0 → block_of contents f' k ≢ f'.sv.indirect
      apart_index_block k ne eq = elim (Bool-cases (k == fb)) [
        | inl is ↦
            let at_k : block_of contents f' k ≡ b =
              ap (block_of contents f') (==→eq k fb is) ∙ here in
            let index : f.sv.indirect ≡ b = sym e ∙ sym eq ∙ at_k in
            fresh _ (sane.index (λ z. ne (eq ∙ e ∙ z))).1 index
        | inr other ↦
            let same = others k (==→ne k fb other) in
            sane.apart_index k (rw same at ne) (sym same ∙ eq ∙ e)
      ]

      pub Sane-block : Sane contents size f'
      Sane-block = record {
        ready = ready;
        directs = directs;
        pointers = at_block;
        index = λ ne. let old = sane.index (rw e at ne) in rw (e, n) (old.0, used _ old.1);
        apart = apart_block;
        apart_index = apart_index_block;
      }

pub mapped_beyond : (c : ℕ → List ℕ) (sv : Vnode) (k : ℕ) → nmapped ≤ k → mapped c sv k ≡ 0
unfolding mapped
mapped_beyond c sv k h = rw (le→ltb k ndirect (omega arith), le→ltb k nmapped h)

-- To compare two maps, compare the inodes' pointers and the slots of the indirect blocks.
pub mapped-split :
    (c c' : ℕ → List ℕ) (sv sv' : Vnode) (k : ℕ)
    → (k < ndirect → get_or sv'.direct k 0 ≡ get_or sv.direct k 0)
    → (ndirect ≤ k
        → k < nmapped
        → slot c' sv'.indirect (k - ndirect) ≡ slot c sv.indirect (k - ndirect))
    → mapped c' sv' k ≡ mapped c sv k
unfolding mapped
mapped-split c c' sv sv' k near far = elim (Bool-cases (ltb k ndirect)) [
  | inl is ↦ rw is (near (ltb→lt k ndirect is))
  | inr off ↦ rw off (elim (Bool-cases (ltb k nmapped)) [
    | inl in_ ↦ rw in_ (far (ltb→le k ndirect off) (ltb→lt k nmapped in_))
    | inr out ↦ rw out
  ])
]
