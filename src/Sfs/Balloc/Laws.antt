-- ===== src/Sfs/Balloc/Laws.antt =====
-- `sfs_balloc` on a consistent file system.
use ops_class.Base.{
  ℕ, ◌≤◌, ◌<◌, ◌≡◌, ◌≢◌, refl, ◌∙◌, List, ◌==◌, if◌then◌else◌, arith, true, false, inl, inr, lt→ltb,
  replicate, length-replicate, get_or-replicate, ◌⊎◌,
}
use ops_class.Base.Run.{
  Run, done, fail, panicked, blocked, eio, enospc, Ensures, returns, fails, Checked, value, panic,
}
use ops_class.Bitmap.{Bitmap, isset}
use ops_class.Bitmap.Valid.{IsValid}
use ops_class.Bitmap.Alloc.{Allocated, alloc-Allocated}
use ops_class.Bitmap.Mark.{Turned, unmark-Turned}
use ops_class.Vfs.BigLock
use ops_class.Sfs.Device.{Device, Contents, IsDisk, IsBlock, block_size}
use ops_class.Sfs.State.{Sfs}
use ops_class.Sfs.Io.Laws.{SameFs, writeblock_lem}
use ops_class.Sfs.Balloc.{clearblock, cleared, unmarked_after, claimed, balloc}

-- A file system of a disk of `size` blocks that is fit to allocate from: the current thread holds
-- the big lock, and block 0 and the bits past the last block are in use.
pub record Ready {D : Type 0} (size : ℕ) (s : Sfs D) : Type 0 where
  pub held : BigLock.do_i_hold s.biglock s.curthread ≡ true
  pub map_valid : IsValid s.freemap
  pub span : s.nblocks ≤ s.freemap.nbits
  pub on_disk : s.nblocks ≤ size
  pub tail : (i : ℕ) → s.nblocks ≤ i → i < s.freemap.nbits → isset s.freemap i ≡ true
  pub super : isset s.freemap 0 ≡ true

abbrev pub zeros : List ℕ
zeros = replicate block_size 0

pub zeros-IsBlock : IsBlock zeros
zeros-IsBlock = record {
  sized = length-replicate {A = ℕ} block_size 0;
  bytes = λ i. omega (arith, get_or-replicate {A = ℕ} block_size i 0);
}

pub Ready-SameFs :
    {D : Type 0} {size : ℕ} {s s' : Sfs D} → SameFs s s' → Ready size s → Ready size s'
Ready-SameFs same r = record {
  held = rw (same.biglock, same.curthread) r.held;
  map_valid = rw same.freemap r.map_valid;
  span = rw (same.nblocks, same.freemap) r.span;
  on_disk = rw same.nblocks r.on_disk;
  tail = rw (same.nblocks, same.freemap) r.tail;
  super = rw same.freemap r.super;
}

-- The blocks in use are as before, and so is what they hold.
pub record Kept {D : Type 0} (contents : D → Contents) (s s' : Sfs D) : Type 0 where
  pub nblocks : s'.nblocks ≡ s.nblocks
  pub used : (j : ℕ) → isset s'.freemap j ≡ isset s.freemap j
  pub stored : (j : ℕ) → isset s.freemap j ≡ true → contents s'.device j ≡ contents s.device j

-- `block` was free; it is in use now, and zeroed; no other block has changed.
pub record Claimed {D : Type 0} (contents : D → Contents) (s : Sfs D) (block : ℕ) (s' : Sfs D)
    : Type 0 where
  pub nblocks : s'.nblocks ≡ s.nblocks
  pub inside : block < s.nblocks
  pub free : isset s.freemap block ≡ false
  pub used : (j : ℕ) → isset s'.freemap j ≡ (if block == j then true else isset s.freemap j)
  pub stored : (j : ℕ) → contents s'.device j ≡ (if block == j then zeros else contents s.device j)
  pub dirty : s'.freemapdirty ≡ true

module _ {D : Type 0} {dev : Device D} {contents : D → Contents} {size : ℕ}
    (disk : IsDisk dev contents size) where
  -- The outcomes of `sfs_balloc`.
  abbrev pub Balloc : Sfs D → Run (Sfs D) ℕ → Type 0
  Balloc s =
      Ensures (λ block s'. Claimed contents s block s' × Ready size s')
        (λ e s'. ((e ≡ enospc) ⊎ (e ≡ eio)) × Kept contents s s' × Ready size s')

  -- The free map after an allocation: `block` is the only new bit.
  NewBit : Sfs D → ℕ → Bitmap → Type 0
  NewBit s block m = (j : ℕ) → isset m j ≡ (if block == j then true else isset s.freemap j)

  module _ (s : Sfs D) (block : ℕ) (inside : block < s.nblocks) (ready : Ready size s)
      (free : isset s.freemap block ≡ false) where
    claimed_lem :
        (m : Bitmap) (s' : Sfs D)
        → NewBit s block m
        → Ready size (record s { freemap = m; freemapdirty = true })
        → SameFs (record s { freemap = m; freemapdirty = true }) s'
        → ((k : ℕ) → contents s'.device k ≡ (if block == k then zeros else contents s.device k))
        → Claimed contents s block s' × Ready size s'
    unfolding NewBit
    claimed_lem m s' used ready' same wrote = (
      record {
        nblocks = same.nblocks;
        inside = inside;
        free = free;
        used = λ j. rw same.freemap (used j);
        stored = wrote;
        dirty = same.freemapdirty;
      },
      Ready-SameFs same ready',
    )

    undone :
        (m : Bitmap) (s' : Sfs D) (r : Checked Bitmap)
        → NewBit s block m
        → IsValid m
        → m.nbits ≡ s.freemap.nbits
        → SameFs (record s { freemap = m; freemapdirty = true }) s'
        → ((k : ℕ) → block ≢ k → contents s'.device k ≡ contents s.device k)
        → Turned m block false r
        → Balloc s (unmarked_after eio s' r)
    unfolding NewBit unmarked_after
    undone m s' (value m') used v e same kept turned = fails (
      inr refl,
      record {
        nblocks = same.nblocks;
        used = used';
        stored = λ j h. kept j (λ e. ground (arith, h, free));
      },
      record {
        held = rw (same.biglock, same.curthread) ready.held;
        map_valid = turned.3;
        span = omega (arith, ready.span, same.nblocks, turned.4);
        on_disk = omega (arith, ready.on_disk, same.nblocks);
        tail = λ i out h.
            used' i ∙ ready.tail i (omega (arith, same.nblocks)) (omega (arith, turned.4));
        super = used' 0 ∙ ready.super;
      },
    )
      where
        used' : (j : ℕ) → isset m' j ≡ isset s.freemap j
        used' j = ground (arith, turned.2 j, used j, free)
    undone m s' panic used v e same kept (inl out) = absurd (omega (arith, ready.span))
    undone m s' panic used v e same kept (inr clear) = absurd (ground (arith, clear, used block))

    cleared_lem :
        (m : Bitmap) (r : Run (Sfs D) (Unit {0}))
        → NewBit s block m
        → m.nbits ≡ s.freemap.nbits
        → Ready size (record s { freemap = m; freemapdirty = true })
        → Ensures
            (λ _ s'.
              SameFs (record s { freemap = m; freemapdirty = true }) s'
              × ((k : ℕ)
                  → contents s'.device k ≡ (if block == k then zeros else contents s.device k)))
            (λ e s'.
              (e ≡ eio)
              × SameFs (record s { freemap = m; freemapdirty = true }) s'
              × ((k : ℕ) → block ≢ k → contents s'.device k ≡ contents s.device k))
            r
        → Balloc s (cleared dev block r)
    unfolding cleared
    cleared_lem m r used e ready' (returns {s = s'} (same, wrote)) =
        returns (claimed_lem m s' used ready' same wrote)
    cleared_lem m r used e ready' (fails {s = s'} (bad, same, kept)) = rw bad (
        undone m s' _ used ready'.map_valid e same kept
          (rw same.freemap (unmark-Turned block ready'.map_valid)))

  claimed-Balloc :
      (s : Sfs D) (r : Run Bitmap ℕ)
      → Ready size s
      → Allocated s.freemap r
      → Balloc s (claimed dev s r)
  unfolding claimed clearblock NewBit
  claimed-Balloc s (done block m) ready (in_map, free, full, used, valid, e) =
      rw (lt→ltb block s.nblocks inside) (
        cleared_lem s block inside ready free m _ used e ready' (
          writeblock_lem disk block zeros (record s { freemap = m; freemapdirty = true })
            (omega (arith, inside, ready.on_disk)) zeros-IsBlock ready.held))
    where
      inside : block < s.nblocks
      inside = ground (arith, ready.tail block, in_map, free)

      ready' : Ready size (record s { freemap = m; freemapdirty = true })
      ready' = record {
        held = ready.held;
        map_valid = valid;
        span = omega (arith, ready.span, e);
        on_disk = ready.on_disk;
        tail = λ i out h. ground (arith, used i, ready.tail i out (omega (arith, e)));
        super = ground (arith, used 0, ready.super);
      }
  claimed-Balloc s (fail e m) ready (why, same, full) =
      rw (why, same)
        (fails (inl refl, record { nblocks = refl; used = λ j. refl; stored = λ j h. refl }, ready))
  claimed-Balloc s panicked ready h = absurd h
  claimed-Balloc s blocked ready h = absurd h

  -- With the file system ready, `sfs_balloc` neither panics nor waits. A block that it hands back lay
  -- on the volume and was free, is in use and holds zeros, and no other block or bit has changed.
  -- If it fails, with ENOSPC or EIO, the blocks in use and what they hold are as before.
  pub balloc-Balloc : {s : Sfs D} → Ready size s → Balloc s (balloc dev s)
  unfolding balloc
  balloc-Balloc {s} ready = claimed-Balloc s _ ready (alloc-Allocated ready.map_valid)
