-- ===== src/Sfs/Tests.antt =====
-- The file system's theorems on a small volume: ten blocks, of which only block 0 is in use, and an
-- empty file.
mod Sparse
mod Directory
use ops_class.Base.{
  ◌≢◌, ℕ, zero, suc, ◌*◌, ◌/◌, ◌%◌, ◌<◌, ◌≤◌, ◌≡◌, refl, ap, ap₂, true, false, List, [], ◌∷◌,
  get_or, length, replicate, get_or-replicate, ◌==◌, ltb, if◌then◌else◌, arith, Bool-cases, inl,
  inr,
}
use ops_class.Base.Run.{done, fail, eio, Ensures}
use ops_class.Base.Bits.{bit_set, set_bit}
use ops_class.Bitmap.{isset, mark}
use ops_class.Bitmap.Valid.{IsValid}
use ops_class.Bitmap.Mark.{mark-Turned}
use ops_class.Bitmap.Tests.{made-IsValid}
use ops_class.Synch.Lock
use ops_class.Vfs.BigLock
use ops_class.Sfs.Device.{Device, Contents, IsDisk, IsBlock, block_size}
use ops_class.Sfs.State.{Sfs, File}
use ops_class.Sfs.Io.{rwblock}
use ops_class.Sfs.Io.Laws.{Failing, rwblock_retries}
use ops_class.Sfs.Itrunc.{itrunc}
use ops_class.Sfs.Bmap.{set_direct, set_indirect}
use ops_class.Sfs.State.{Vnode}
use ops_class.Sfs.Io.{readblock, writeblock}
use ops_class.Sfs.Balloc.{bfree}
use ops_class.Bitmap.{unmark}
use ops_class.Base.Bits.{clear_bit}
use ops_class.Base.Run.{Run, Errno, einval, panicked, blocked}
use ops_class.Sfs.Balloc.{balloc}
use ops_class.Sfs.Balloc.Laws.{Ready, Balloc, balloc-Balloc}
use ops_class.Sfs.Bmap.{bmap}
use ops_class.Sfs.Bmap.Map.{slot, mapped, block_of, Sane}
use ops_class.Sfs.Bmap.Outcome.{Got, Failed}
use ops_class.Sfs.Bmap.Laws.{bmap-Got}
use ops_class.Sfs.Words.{words, bytes_of, AreWords, words-bytes_of}

-- A block of `n` bytes from whatever is stored.
pub pad : ℕ → List ℕ → List ℕ
pad zero xs = []
pad (suc n) [] = 0 ∷ pad n []
pad (suc n) (x ∷ xs) = x % 256 ∷ pad n xs

length-pad : (n : ℕ) (xs : List ℕ) → length (pad n xs) ≡ n
unfolding pad
length-pad zero xs = refl
length-pad (suc n) [] = ap suc (length-pad n [])
length-pad (suc n) (x ∷ xs) = ap suc (length-pad n xs)

pad-lt : (n : ℕ) (xs : List ℕ) (i : ℕ) → get_or (pad n xs) i 0 < 256
unfolding pad
pad-lt zero xs i = omega arith
pad-lt (suc n) [] zero = omega arith
pad-lt (suc n) [] (suc i) = pad-lt n [] i
pad-lt (suc n) (x ∷ xs) zero = omega arith
pad-lt (suc n) (x ∷ xs) (suc i) = pad-lt n xs i

pad-block : (n : ℕ) (xs : List ℕ) → length xs ≡ n → ((i : ℕ) → get_or xs i 0 < 256) → pad n xs ≡ xs
unfolding pad
pad-block zero [] l b = refl
pad-block zero (x ∷ xs) l b = absurd (omega arith)
pad-block (suc n) [] l b = absurd (omega arith)
pad-block (suc n) (x ∷ xs) l b =
    ap₂ (λ y ys. y ∷ ys) (omega (arith, b 0)) (pad-block n xs (omega arith) (λ i. b (suc i)))

abbrev pub Store : Type 0
Store = ℕ → List ℕ

unfoldable pub contents : Store → Contents
contents d b = pad 512 (d b)

abbrev pub disk : Device Store
disk = record {
  read = λ off d. done (contents d (off / block_size)) d;
  write = λ off block d. done tt (λ b. if off / block_size == b then block else d b);
}

pub disk-IsDisk : IsDisk disk contents 10
unfolding contents
disk-IsDisk = record {
  blocks = λ d b. record { sized = length-pad 512 (d b); bytes = pad-lt 512 (d b) };
  reads = λ b d h. (ap (λ k. pad 512 (d k)) (omega arith), λ k. refl);
  writes = λ b block d h valid k. wrote b block d k valid;
}
  where
    wrote :
        (b : ℕ) (block : List ℕ) (d : Store) (k : ℕ)
        → IsBlock block
        → pad 512 (if b * block_size / block_size == k then block else d k)
          ≡ (if b == k then block else pad 512 (d k))
    wrote b block d k valid = elim (Bool-cases (b == k)) [
      | inl at ↦ rw (the_same, at) (pad-block 512 block valid.sized valid.bytes)
      | inr off ↦ rw (the_same, off) refl
    ]
      where
        the_same : b * block_size / block_size ≡ b
        the_same = omega arith

abbrev pub volume : Sfs Store
volume = record {
  device = λ b. [];
  freemap = record { nbits = 10; v = 1 ∷ 252 ∷ [] };
  freemapdirty = false;
  nblocks = 10;
  biglock = record { lock = record { lock_thread = 1; lock_count = 0 }; depth = 1 };
  curthread = 1;
}

freemap-IsValid : IsValid volume.freemap
unfolding mark bit_set set_bit
freemap-IsValid = (mark-Turned 0 made-IsValid).3

volume-Ready : Ready 10 volume
unfolding BigLock.do_i_hold Lock.do_i_hold isset bit_set
volume-Ready = record {
  held = refl;
  map_valid = freemap-IsValid;
  span = omega arith;
  on_disk = omega arith;
  tail = λ i out h. absurd (omega arith);
  super = refl;
}

balloc-Balloc_example : Balloc disk-IsDisk volume (balloc disk volume)
balloc-Balloc_example = balloc-Balloc disk-IsDisk volume-Ready

abbrev empty_file : File Store
empty_file = record {
  fs = volume;
  sv = record { size = 0; direct = replicate 15 0; indirect = 0; dirty = false };
}

empty_map : (k : ℕ) → block_of contents empty_file k ≡ 0
unfolding mapped slot
empty_map k = elim (Bool-cases (ltb k 15)) [
  | inl near ↦ rw near (get_or-replicate 15 k 0)
  | inr far ↦
      rw far (elim (Bool-cases (ltb k 143)) [ inl in_ ↦ rw in_ refl | inr out ↦ rw out refl ])
]

empty_file-Sane : Sane contents 10 empty_file
empty_file-Sane = record {
  ready = volume-Ready;
  directs = refl;
  pointers = λ k some_. absurd (some_ (empty_map k));
  index = λ some_. absurd (some_ refl);
  apart = λ k l some_ e. absurd (some_ (empty_map k));
  apart_index = λ k some_ e. absurd (some_ (empty_map k));
}

-- The first block past the direct ones.
bmap-Got_example :
    Ensures
      (Got contents 10 empty_file 15 true)
      (Failed contents 10 empty_file 15)
      (bmap disk 15 true empty_file)
bmap-Got_example = bmap-Got disk-IsDisk empty_file-Sane 15 true

rwblock_retries_example :
    ((k : ℕ) (d d' : Store) (a : List ℕ)
      → Failing (disk.read 512) k volume.device d
      → k ≤ 10
      → disk.read 512 d ≡ done a d'
      → rwblock (disk.read 512) volume ≡ done a (record volume { device = d' }))
    × ((k : ℕ) (d d' : Store) (e : Errno)
        → Failing (disk.read 512) k volume.device d
        → k ≤ 10
        → disk.read 512 d ≡ fail e d'
        → e ≢ eio
        → e ≢ einval
        → rwblock (disk.read 512) volume ≡ fail e (record volume { device = d' }))
    × ((k : ℕ) (d d' : Store)
        → Failing (disk.read 512) k volume.device d
        → k ≤ 10
        → disk.read 512 d ≡ fail einval d'
        → rwblock (disk.read 512) volume ≡ panicked)
    × ((d : Store)
        → Failing (disk.read 512) 11 volume.device d
        → rwblock (disk.read 512) volume ≡ fail eio (record volume { device = d }))
rwblock_retries_example = rwblock_retries (disk.read 512) volume-Ready.held

abbrev some_words : List ℕ
some_words = 0 ∷ 4_294_967_295 ∷ 16_909_060 ∷ []

-- A file of the blocks 3 and 4, and, through the index block 5, of 6 and 7 as its blocks 15 and 16.
abbrev pub sparse_file : File Store
sparse_file = record {
  fs = record volume {
    device = λ b. if b == 5 then 0 ∷ 0 ∷ 0 ∷ 6 ∷ 0 ∷ 0 ∷ 0 ∷ 7 ∷ [] else [];
    freemap = record { nbits = 10; v = 249 ∷ 252 ∷ [] };
  };
  sv = record { size = 8704; direct = 3 ∷ 4 ∷ replicate 13 0; indirect = 5; dirty = false };
}

-- The free map and the inode afterwards.
abbrev left_over : Run (File Store) (Unit {0}) → List ℕ × Vnode
left_over (done _ f) = (f.fs.freemap.v, f.sv)
left_over (fail e f) = ([], f.sv)
left_over panicked = ([], sparse_file.sv)
left_over blocked = ([], sparse_file.sv)

-- Cut to nothing, the file gives all its blocks back, the index block as well.
cut-all :
    left_over (itrunc disk 0 sparse_file)
    ≡ (1 ∷ 252 ∷ [], record { size = 0; direct = replicate 15 0; indirect = 0; dirty = true })
unfolding itrunc set_direct set_indirect bfree unmark bit_set clear_bit readblock rwblock
    BigLock.acquire BigLock.release BigLock.do_i_hold Lock.do_i_hold words contents pad
cut-all = refl

-- Cut to the 15 direct blocks, it keeps block 15 of the file, which is past its end, and gives
-- block 16 back.
cut_direct : (left_over (itrunc disk 7680 sparse_file)).0 ≡ 121 ∷ 252 ∷ []
unfolding itrunc set_direct set_indirect bfree unmark bit_set clear_bit readblock writeblock rwblock
    BigLock.acquire BigLock.release BigLock.do_i_hold Lock.do_i_hold words bytes_of contents pad
cut_direct = refl
