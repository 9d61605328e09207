-- ===== src/Sfs/Metaio/Bytes.antt =====
-- The bytes of a file, and what `sfs_bmap` leaves of them.
use ops_class.Base.{
  ℕ, ◌/◌, ◌%◌, ◌≡◌, ◌≢◌, refl, sym, ◌∙◌, ap, true, false, Bool, Bool-cases, ◌==◌, ==→eq, ==→ne,
  get_or, if◌then◌else◌, inl, inr, get_or-replicate, ℕ_discrete, ne→==, ◌⊎◌,
}
use ops_class.Sfs.Device.{Contents, block_size}
use ops_class.Sfs.State.{File}
use ops_class.Sfs.Balloc.Laws.{zeros}
use ops_class.Sfs.Bmap.Map.{block_of, Sane}
use ops_class.Sfs.Bmap.Outcome.{Got}

module _ {D : Type 0} (contents : D → Contents) where
  -- Byte `p` of the file's block `k`; a block that is not there reads as zeros.
  unfoldable pub byte_in : File D → ℕ → ℕ → ℕ
  byte_in f k i =
      if block_of contents f k == 0
      then 0
      else get_or (contents f.fs.device (block_of contents f k)) i 0

  unfoldable pub byte_at : File D → ℕ → ℕ
  unfolding byte_in
  byte_at f p = byte_in f (p / block_size) (p % block_size)

module _ {D : Type 0} (contents : D → Contents) (f f' : File D) where
  -- A block keeps its bytes if it keeps its place and its contents.
  pub byte_in-same :
      (k i : ℕ)
      → block_of contents f' k ≡ block_of contents f k
      → (block_of contents f k ≢ 0
          → contents f'.fs.device (block_of contents f k)
            ≡ contents f.fs.device (block_of contents f k))
      → byte_in contents f' k i ≡ byte_in contents f k i
  unfolding byte_in
  byte_in-same k i same stored = rw same (elim (Bool-cases (block_of contents f k == 0)) [
    | inl none_ ↦ rw none_ refl
    | inr some_ ↦ rw (some_, stored (==→ne (block_of contents f k) 0 some_)) refl
  ])

module _ {D : Type 0} {contents : D → Contents} {size : ℕ} {f : File D}
    (sane : Sane contents size f) (fb : ℕ) (doalloc : Bool) (block : ℕ) (f' : File D)
    (got : Got contents size f fb doalloc block f') where
  kept_block :
      (k : ℕ)
      → block_of contents f' k ≡ block_of contents f k
      → block_of contents f k ≢ 0
      → contents f'.fs.device (block_of contents f k) ≡ contents f.fs.device (block_of contents f k)
  kept_block k same ne =
      got.grown.stored (block_of contents f k) (sane.pointers k ne).1
        (λ e. got.sane.apart_index k (λ z. ne (sym same ∙ z)) (same ∙ e))

  -- `sfs_bmap` changes no byte of the file: a block that it adds is full of zeros.
  pub Got-bytes : (k i : ℕ) → byte_in contents f' k i ≡ byte_in contents f k i
  unfolding byte_in
  Got-bytes k i = elim (ℕ_discrete k fb) [
    | no other ↦
        byte_in-same contents f f' k i (got.others k other) (kept_block k (got.others k other))
    | yes is ↦
        ap (λ k'. byte_in contents f' k' i) is ∙ at_fb ∙ ap (λ k'. byte_in contents f k' i) (sym is)
  ]
    where
      kept_fb :
          (doalloc ≡ false) ⊎ (block_of contents f fb ≢ 0)
          → byte_in contents f' fb i ≡ byte_in contents f fb i
      kept_fb why =
          let same = got.here ∙ got.kept why in
          byte_in-same contents f f' fb i same (kept_block fb same)

      no_block : (block_of contents f fb == 0) ≡ true → byte_in contents f fb i ≡ 0
      no_block none_ = rw none_ refl

      new_block : block ≢ 0 → contents f'.fs.device block ≡ zeros → byte_in contents f' fb i ≡ 0
      new_block ne full =
          rw (got.here, ne→== block 0 ne, full) (get_or-replicate {A = ℕ} block_size i 0)

      at_fb : byte_in contents f' fb i ≡ byte_in contents f fb i
      at_fb = elim (Bool-cases doalloc) [
        | inr no_ ↦ kept_fb (inl no_)
        | inl asked ↦ elim (Bool-cases (block_of contents f fb == 0)) [
          | inr some_ ↦ kept_fb (inr (==→ne (block_of contents f fb) 0 some_))
          | inl none_ ↦
              let new = got.fresh asked (==→eq (block_of contents f fb) 0 none_) in
              new_block new.0 new.2 ∙ sym (no_block none_)
        ]
      ]
