-- ===== src/Sfs/Metaio/Sure.antt =====
-- When `sfs_metaio` cannot fail: on a disk that answers, in a block that the inode points to.
use ops_class.Base.{
  ℕ, ◌+◌, ◌*◌, ◌/◌, ◌%◌, ◌^◌, ◌<◌, ◌≡◌, ◌≢◌, refl, sym, ap, true, inl, inr, List, ltb, lt→ltb,
  ne→==, length, arith, Bool-cases, subst,
}
use ops_class.Base.Run.{Run, Cmd, done, fail, Errno, Ensures, returns, fails, and_then, ◌>>◌}
use ops_class.Vfs.BigLock
use ops_class.Sfs.Device.{Device, Contents, block_size}
use ops_class.Sfs.State.{Sfs, File, in_file}
use ops_class.Sfs.Io.{readblock, writeblock}
use ops_class.Sfs.Io.Laws.{rwblock_retries, here}
use ops_class.Sfs.Bmap.{ndirect, bmap}
use ops_class.Sfs.Bmap.Direct.{bmap_direct-found}
use ops_class.Sfs.Bmap.Map.{block_of, Sane}
use ops_class.Sfs.Metaio.{metaio, meta_block, extend, paste, uio_write}

-- The call returns 0.
abbrev pub Returns : {S A : Type 0} → Run S A → Type 0
Returns {S} {A} r = (a : A) × (s : S) × (r ≡ done a s)

-- The disk answers every request for a block.
pub record Answers {D : Type 0} (dev : Device D) (size : ℕ) : Type 0 where
  pub reads : (b : ℕ) (d : D) → b < size → Returns (dev.read (b * block_size) d)
  pub writes :
      (b : ℕ) (bytes : List ℕ) (d : D) → b < size → Returns (dev.write (b * block_size) bytes d)

-- What cannot fail under `C` has not failed where it fails.
pub not_failed :
    {S A C : Type 0} {P : A → S → Type 0} {E : Errno → S → Type 0} {r : Run S A}
    → Ensures P E r
    → (C → Returns r)
    → Ensures P (λ e s. E e s × ¬ C) r
not_failed (returns p) sure = returns p
not_failed {S} {A} (fails {e = e} {s = s} p) sure =
    fails (p, λ c. let (a, s', z) = sure c in apart a s' z)
  where
    apart : (a : A) (s' : S) → fail e s ≡ done a s' → ⊥
    apart a s' z = cc

-- A call that returns, and then one that does.
then_sure :
    {S A B : Type 0} {r : Run S A} (k : A → Cmd S B) (a : A) (s : S)
    → r ≡ done a s
    → Returns (k a s)
    → Returns (and_then r k)
then_sure k a s e h = subst (λ r. Returns (and_then r k)) (sym e) h

module _ {D : Type 0} {dev : Device D} {size : ℕ} (answers : Answers dev size) where
  read_sure :
      (b : ℕ) (s : Sfs D)
      → b < size
      → BigLock.do_i_hold s.biglock s.curthread ≡ true
      → (bytes : List ℕ) × (d : D) × (readblock dev b s ≡ done bytes (record s { device = d }))
  unfolding readblock
  read_sure b s h held =
      let (bytes, d, e) = answers.reads b s.device h in
      let (good, other, invalid, up) = rwblock_retries (dev.read (b * block_size)) held in
      (bytes, d, good 0 s.device d bytes here (omega arith) e)

  write_sure :
      (b : ℕ) (bytes : List ℕ) (s : Sfs D)
      → b < size
      → BigLock.do_i_hold s.biglock s.curthread ≡ true
      → (d : D) × (writeblock dev b bytes s ≡ done tt (record s { device = d }))
  unfolding writeblock
  write_sure b bytes s h held =
      let (u, d, e) = answers.writes b bytes s.device h in
      let (good, other, invalid, up) = rwblock_retries (dev.write (b * block_size) bytes) held in
      (d, good 0 s.device d tt here (omega arith) e)

  extend_sure :
      (endpos : ℕ) (bytes : List ℕ) (f : File D) → Returns ((extend endpos >> done bytes) f)
  unfolding extend
  extend_sure endpos bytes f = elim (Bool-cases (ltb f.sv.size endpos)) [
    | inl longer ↦ rw longer (bytes, _, refl)
    | inr within ↦ rw within (bytes, _, refl)
  ]

  module _ {contents : D → Contents} {f : File D} (sane : Sane contents size f) (actualpos : ℕ)
      (bytes : List ℕ) (near : actualpos / block_size < ndirect)
      (some_block : block_of contents f (actualpos / block_size) ≢ 0) where
    block : ℕ
    block = block_of contents f (actualpos / block_size)

    bmap_sure : bmap dev (actualpos / block_size) true f ≡ done block f
    unfolding bmap block
    bmap_sure =
        rw (sane.ready.held, lt→ltb (actualpos / block_size) ndirect near)
          (bmap_direct-found dev sane (actualpos / block_size) true near some_block)

    block_sure : Returns (meta_block dev actualpos bytes uio_write block f)
    unfolding meta_block block
    block_sure =
        let inside : block < size =
          omega
            (arith, (sane.pointers (actualpos / block_size) some_block).0, sane.ready.on_disk) in
        let (buf, d, e) = read_sure block f.fs inside sane.ready.held in
        let new = paste (actualpos % block_size) bytes buf in
        let s : Sfs D = record (f.fs) { device = d } in
        let (d', e') = write_sure block new s inside sane.ready.held in
        rw (ne→== block 0 some_block) (
          then_sure _ buf (record f { fs = s }) (ap (in_file f) e)
            (then_sure _ tt (record f { fs = record s { device = d' } })
              (ap (in_file (record f { fs = s })) e')
              (extend_sure (actualpos + length bytes) bytes _)))

    pub metaio_sure : Returns (metaio dev actualpos bytes uio_write f)
    unfolding metaio
    metaio_sure =
        let small : actualpos / block_size % 2 ^ 32 ≡ actualpos / block_size = omega arith in
        rw (sane.ready.held, small) (then_sure _ block f bmap_sure block_sure)
