-- ===== src/Sfs/Device.antt =====
-- The device under the file system (DEVOP_IO, kern/include/device.h), as an interface: whatever
-- driver is behind the operations table, and what a driver for a disk promises.
use ops_class.Base.{ℕ, ◌*◌, ◌<◌, ◌≡◌, ◌≢◌, List, ◌==◌, if◌then◌else◌, length, get_or}
use ops_class.Base.Run.{Cmd, Run, done, fail, panicked, blocked, eio}

-- One transfer of a block at a byte offset, over the driver's own state.
pub record Device (D : Type 0) : Type 0 where
  pub read : ℕ → Cmd D (List ℕ)
  pub write : ℕ → List ℕ → Cmd D (Unit {0})

abbrev pub block_size : ℕ
block_size = 512

-- The contents of a block.
pub record IsBlock (block : List ℕ) : Type 0 where
  pub sized : length block ≡ block_size
  pub bytes : (i : ℕ) → get_or block i 0 < 256

abbrev pub Contents : Type 0
Contents = ℕ → List ℕ

-- A read hands back the block's contents; no read changes what is stored.
abbrev pub ReadLaw : {D : Type 0} → (D → Contents) → ℕ → D → Run D (List ℕ) → Type 0
ReadLaw contents b d (done block d') =
    (block ≡ contents d b) × ((k : ℕ) → contents d' k ≡ contents d k)
ReadLaw contents b d (fail e d') = (e ≡ eio) × ((k : ℕ) → contents d' k ≡ contents d k)
ReadLaw contents b d panicked = ⊥
ReadLaw contents b d blocked = ⊥

-- A write replaces the block, and a write that fails may spoil that block alone.
abbrev pub WriteLaw : {D : Type 0} → (D → Contents) → ℕ → List ℕ → D → Run D (Unit {0}) → Type 0
WriteLaw contents b block d (done _ d') =
    (k : ℕ) → contents d' k ≡ (if b == k then block else contents d k)
WriteLaw contents b block d (fail e d') =
    (e ≡ eio) × ((k : ℕ) → b ≢ k → contents d' k ≡ contents d k) × IsBlock (contents d' b)
WriteLaw contents b block d panicked = ⊥
WriteLaw contents b block d blocked = ⊥

-- A disk of `size` blocks. Requests that are aligned and in range fail only by an I/O error.
pub record IsDisk {D : Type 0} (dev : Device D) (contents : D → Contents) (size : ℕ) : Type 0 where
  pub blocks : (d : D) (b : ℕ) → IsBlock (contents d b)
  pub reads : (b : ℕ) (d : D) → b < size → ReadLaw contents b d (dev.read (b * block_size) d)
  pub writes :
      (b : ℕ) (block : List ℕ) (d : D)
      → b < size
      → IsBlock block
      → WriteLaw contents b block d (dev.write (b * block_size) block d)
