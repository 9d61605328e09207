-- ===== src/Sfs/Tests/Sparse.antt =====
-- `sfs_itrunc` on a small file with an index block.
use ops_class.Base.{
  ℕ, zero, suc, ◌+◌, ◌-◌, ◌<◌, ◌≡◌, refl, ◌∙◌, ap, true, ◌∷◌, ◌==◌, arith, get_or, replicate,
  get_or-replicate, if◌then◌else◌, dec_lt,
}
use ops_class.Base.Run.{Ensures}
use ops_class.Base.Bits.{bit_set, set_bit}
use ops_class.Bitmap.{isset, mark}
use ops_class.Bitmap.Valid.{IsValid}
use ops_class.Bitmap.Mark.{mark-Turned}
use ops_class.Bitmap.Tests.{made-IsValid}
use ops_class.Synch.Lock
use ops_class.Vfs.BigLock
use ops_class.Sfs.Words.{words}
use ops_class.Sfs.Balloc.Laws.{Ready}
use ops_class.Sfs.Bmap.{ndirect}
use ops_class.Sfs.Bmap.Map.{nmapped, slot, block_of, Sane}
use ops_class.Sfs.Bmap.Frame.{mapped_beyond}
use ops_class.Sfs.Itrunc.{itrunc, blocks_for}
use ops_class.Sfs.Itrunc.Pointers.{near_block, far_block}
use ops_class.Sfs.Itrunc.Cut.{Cut, Torn}
use ops_class.Sfs.Itrunc.Lock.{Holds}
use ops_class.Sfs.Itrunc.Laws.{itrunc-Cut}
use ops_class.Sfs.Tests.{contents, pad, disk, disk-IsDisk, sparse_file}

sparse-IsValid : IsValid sparse_file.fs.freemap
unfolding mark bit_set set_bit
sparse-IsValid =
    (mark-Turned 7
      (mark-Turned 6
        (mark-Turned 5 (mark-Turned 4 (mark-Turned 3 (mark-Turned 0 made-IsValid).3).3).3).3).3).3

sparse-Ready : Ready 10 sparse_file.fs
unfolding BigLock.do_i_hold Lock.do_i_hold isset bit_set
sparse-Ready = record {
  held = refl;
  map_valid = sparse-IsValid;
  span = omega arith;
  on_disk = omega arith;
  tail = λ i out h. absurd (omega arith);
  super = refl;
}

get_or-two :
    (a b n j : ℕ)
    → get_or (a ∷ b ∷ replicate n 0) j 0 ≡ (if j == 0 then a else if j == 1 then b else 0)
get_or-two a b n zero = refl
get_or-two a b n (suc zero) = refl
get_or-two a b n (suc (suc j)) = ground (arith, get_or-replicate {A = ℕ} n j 0)

index_words : words 128 (contents sparse_file.fs.device 5) ≡ 6 ∷ 7 ∷ replicate 126 0
unfolding words contents pad
index_words = refl

abbrev sparse_block : ℕ → ℕ
sparse_block k =
    if k == 0 then 3 else if k == 1 then 4 else if k == 15 then 6 else if k == 16 then 7 else 0

sparse_slot :
    (j : ℕ)
    → slot (contents sparse_file.fs.device) 5 j ≡ (if j == 0 then 6 else if j == 1 then 7 else 0)
unfolding slot
sparse_slot j = ap (λ ws. get_or ws j 0) index_words ∙ get_or-two 6 7 126 j

sparse_map : (k : ℕ) → block_of contents sparse_file k ≡ sparse_block k
sparse_map k = elim (dec_lt k ndirect) [
  | yes near ↦ near_block contents sparse_file k near ∙ get_or-two 3 4 13 k ∙ ground arith
  | no far ↦ elim (dec_lt k nmapped) [
    | yes small ↦
        ap (block_of contents sparse_file) {x = k} {y = ndirect + (k - ndirect)} (omega arith)
        ∙ far_block contents sparse_file (k - ndirect) (omega arith)
        ∙ sparse_slot (k - ndirect)
        ∙ ground arith
    | no big ↦ mapped_beyond _ sparse_file.sv k (omega arith) ∙ ground arith
  ]
]

used_blocks : (b : ℕ) → 2 < b → b < 8 → isset sparse_file.fs.freemap b ≡ true
unfolding isset bit_set
used_blocks zero h l = absurd (omega arith)
used_blocks (suc zero) h l = absurd (omega arith)
used_blocks (suc (suc zero)) h l = absurd (omega arith)
used_blocks (suc (suc (suc zero))) h l = refl
used_blocks (suc (suc (suc (suc zero)))) h l = refl
used_blocks (suc (suc (suc (suc (suc zero))))) h l = refl
used_blocks (suc (suc (suc (suc (suc (suc zero)))))) h l = refl
used_blocks (suc (suc (suc (suc (suc (suc (suc zero))))))) h l = refl
used_blocks (suc (suc (suc (suc (suc (suc (suc (suc b)))))))) h l = absurd (omega arith)

sparse-Sane : Sane contents 10 sparse_file
sparse-Sane = record {
  ready = sparse-Ready;
  directs = refl;
  pointers = λ k some_. (
    ground (arith, sparse_map k),
    used_blocks _ (ground (arith, sparse_map k)) (ground (arith, sparse_map k)),
  );
  index = λ some_. (omega arith, used_blocks 5 (omega arith) (omega arith));
  apart = λ k l some_ e. ground (arith, sparse_map k, sparse_map l);
  apart_index = λ k some_ e. ground (arith, sparse_map k);
}

sparse-Holds : Holds sparse_file.fs
sparse-Holds = record { held = sparse-Ready.held; positive = omega arith; room = omega arith }

-- Cut to its 15 direct blocks.
itrunc-Cut_example :
    Ensures
      (λ _ f'. Cut contents 10 (blocks_for 7680) sparse_file 7680 f')
      (Torn contents 10 (blocks_for 7680) sparse_file)
      (itrunc disk 7680 sparse_file)
itrunc-Cut_example = itrunc-Cut disk-IsDisk sparse-Sane sparse-Holds 7680
