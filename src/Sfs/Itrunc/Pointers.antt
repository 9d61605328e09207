-- ===== src/Sfs/Itrunc/Pointers.antt =====
-- A sane file's pointers, those of the inode and those of the indirect block.
use ops_class.Base.{ℕ, ◌+◌, ◌<◌, ◌≡◌, ◌≢◌, sym, ◌∙◌, true, arith, get_or, ap, subst}
use ops_class.Bitmap.{isset}
use ops_class.Sfs.Device.{Contents}
use ops_class.Sfs.State.{File}
use ops_class.Sfs.Bmap.{ndirect, dbperidb}
use ops_class.Sfs.Bmap.Map.{slot, block_of, Sane}
use ops_class.Sfs.Bmap.Frame.{mapped_near, mapped_far}

module _ {D : Type 0} (contents : D → Contents) (f : File D) where
  abbrev pub near_at : ℕ → ℕ
  near_at k = get_or f.sv.direct k 0

  abbrev pub far_at : ℕ → ℕ
  far_at j = slot (contents f.fs.device) f.sv.indirect j

  pub near_block : (k : ℕ) → k < ndirect → block_of contents f k ≡ near_at k
  near_block k h = mapped_near (contents f.fs.device) f.sv k h

  pub far_block : (j : ℕ) → j < dbperidb → block_of contents f (ndirect + j) ≡ far_at j
  far_block j h =
      mapped_far (contents f.fs.device) f.sv (ndirect + j) (omega arith) (omega arith)
      ∙ ap far_at (omega arith)

module _ {D : Type 0} {contents : D → Contents} {size : ℕ} {f : File D}
    (sane : Sane contents size f) where
  pub near_used :
      (k : ℕ)
      → k < ndirect
      → near_at contents f k ≢ 0
      → (near_at contents f k < f.fs.nblocks) × (isset f.fs.freemap (near_at contents f k) ≡ true)
  near_used k h =
      subst (λ b. b ≢ 0 → (b < f.fs.nblocks) × (isset f.fs.freemap b ≡ true))
        (near_block contents f k h) (sane.pointers k)

  pub far_used :
      (j : ℕ)
      → j < dbperidb
      → far_at contents f j ≢ 0
      → (far_at contents f j < f.fs.nblocks) × (isset f.fs.freemap (far_at contents f j) ≡ true)
  far_used j h =
      subst (λ b. b ≢ 0 → (b < f.fs.nblocks) × (isset f.fs.freemap b ≡ true))
        (far_block contents f j h) (sane.pointers (ndirect + j))

  module _ (k l : ℕ) (some_ : block_of contents f k ≢ 0) (differ : k ≢ l) where
    apart_blocks : block_of contents f k ≢ block_of contents f l
    apart_blocks e = differ (sane.apart k l some_ e)

  pub near_apart :
      (k l : ℕ)
      → k < l
      → l < ndirect
      → near_at contents f k ≢ 0
      → near_at contents f k ≢ near_at contents f l
  near_apart k l h h' ne e =
      apart_blocks k l (λ z. ne (sym (near_block contents f k (omega arith)) ∙ z))
        (λ q. omega arith)
        (near_block contents f k (omega arith) ∙ e ∙ sym (near_block contents f l h'))

  pub far_apart :
      (k l : ℕ)
      → k < l
      → l < dbperidb
      → far_at contents f k ≢ 0
      → far_at contents f k ≢ far_at contents f l
  far_apart k l h h' ne e =
      apart_blocks (ndirect + k) (ndirect + l)
        (λ z. ne (sym (far_block contents f k (omega arith)) ∙ z)) (λ q. omega arith)
        (far_block contents f k (omega arith) ∙ e ∙ sym (far_block contents f l h'))

  pub near-far :
      (k j : ℕ)
      → k < ndirect
      → j < dbperidb
      → near_at contents f k ≢ 0
      → near_at contents f k ≢ far_at contents f j
  near-far k j h h' ne e =
      apart_blocks k (ndirect + j) (λ z. ne (sym (near_block contents f k h) ∙ z))
        (λ q. omega arith) (near_block contents f k h ∙ e ∙ sym (far_block contents f j h'))

  pub near-index :
      (k : ℕ) → k < ndirect → near_at contents f k ≢ 0 → near_at contents f k ≢ f.sv.indirect
  near-index k h =
      subst (λ b. b ≢ 0 → b ≢ f.sv.indirect) (near_block contents f k h) (sane.apart_index k)

  pub far-index :
      (j : ℕ) → j < dbperidb → far_at contents f j ≢ 0 → far_at contents f j ≢ f.sv.indirect
  far-index j h =
      subst (λ b. b ≢ 0 → b ≢ f.sv.indirect) (far_block contents f j h)
        (sane.apart_index (ndirect + j))
