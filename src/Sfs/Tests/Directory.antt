-- ===== src/Sfs/Tests/Directory.antt =====
-- The metadata and directory theorems on a small directory: `a`, inode 7, and an empty slot.
use ops_class.Base.{
  length, ℕ, zero, suc, ◌<◌, ◌≡◌, ◌≢◌, refl, ◌∙◌, ap, true, false, List, [], ◌∷◌, ◌==◌, arith,
  get_or, replicate, get_or-replicate, if◌then◌else◌, dec_lt, some,
}
use ops_class.Base.Run.{Ensures, enoent, ◌>>=◌}
use ops_class.Base.Bits.{bit_set, set_bit}
use ops_class.Bitmap.{isset, mark}
use ops_class.Bitmap.Mark.{mark-Turned}
use ops_class.Bitmap.Tests.{made-IsValid}
use ops_class.Synch.Lock
use ops_class.Vfs.BigLock
use ops_class.Sfs.Words.{words}
use ops_class.Sfs.State.{File}
use ops_class.Sfs.Balloc.Laws.{Ready}
use ops_class.Sfs.Bmap.{ndirect}
use ops_class.Sfs.Bmap.Map.{nmapped, mapped, slot, block_of, Sane}
use ops_class.Sfs.Bmap.Frame.{mapped_beyond, mapped_near, mapped_far}
use ops_class.Sfs.Metaio.{uio_read, uio_write, metaio}
use ops_class.Sfs.Metaio.Bytes.{byte_in, byte_at}
use ops_class.Sfs.Metaio.Outcome.{Unchanged, MetaRead, MetaWritten, MetaFailed}
use ops_class.Sfs.Metaio.Read.{metaio-Read}
use ops_class.Sfs.Metaio.Write.{metaio-Written}
use ops_class.Sfs.Dir.{
  namelen, entry_of, same_string, matches, new_entry, empty_entry, dir_link, dir_unlink,
  dir_findname, type_dir,
}
use ops_class.Sfs.Dir.Entries.{bytes_at, entry_at, IsName}
use ops_class.Sfs.Dir.Search.{slots, IsDirectory, IsUnique, NotFound, dir_findname-Found}
use ops_class.Sfs.Dir.Link.{
  IsFree, Entered, NotLinked, CannotFail, dir_link-Linked, dir_unlink-Emptied,
}
use ops_class.Sfs.Dir.Again.{dir_link-dir_findname}
use ops_class.Sfs.Tests.{Store, contents, pad, disk, disk-IsDisk, volume}

-- The name `a`.
abbrev name_a : List ℕ
name_a = 97 ∷ []

abbrev name_b : List ℕ
name_b = 98 ∷ []

abbrev directory : File Store
directory = record {
  fs = record volume {
    device = λ b. if b == 3 then 0 ∷ 0 ∷ 0 ∷ 7 ∷ 97 ∷ [] else [];
    freemap = record { nbits = 10; v = 9 ∷ 252 ∷ [] };
  };
  sv = record { size = 128; direct = 3 ∷ replicate 14 0; indirect = 0; dirty = false };
}

directory-Ready : Ready 10 directory.fs
unfolding BigLock.do_i_hold Lock.do_i_hold isset bit_set mark set_bit
directory-Ready = record {
  held = refl;
  map_valid = (mark-Turned 3 (mark-Turned 0 made-IsValid).3).3;
  span = omega arith;
  on_disk = omega arith;
  tail = λ i out h. absurd (omega arith);
  super = refl;
}

get_or-one : (a n j : ℕ) → get_or (a ∷ replicate n 0) j 0 ≡ (if j == 0 then a else 0)
get_or-one a n zero = refl
get_or-one a n (suc j) = ground (arith, get_or-replicate {A = ℕ} n j 0)

directory_map : (k : ℕ) → block_of contents directory k ≡ (if k == 0 then 3 else 0)
unfolding slot
directory_map k = elim (dec_lt k ndirect) [
  | yes near ↦ mapped_near _ directory.sv k near ∙ get_or-one 3 14 k
  | no far ↦ elim (dec_lt k nmapped) [
    | yes small ↦
        mapped_far (contents directory.fs.device) directory.sv k (omega arith) small ∙ ground arith
    | no big ↦ mapped_beyond _ directory.sv k (omega arith) ∙ ground arith
  ]
]

used_three : isset directory.fs.freemap 3 ≡ true
unfolding isset bit_set
used_three = refl

directory-Sane : Sane contents 10 directory
directory-Sane = record {
  ready = directory-Ready;
  directs = refl;
  pointers = λ k some_.
      let e : block_of contents directory k ≡ 3 = ground (arith, directory_map k) in
      (omega arith, ap (isset directory.fs.freemap) e ∙ used_three);
  index = λ some_. absurd (some_ refl);
  apart = λ k l some_ e. ground (arith, directory_map k, directory_map l);
  apart_index = λ k some_ e. some_ e;
}

directory-IsDirectory : IsDirectory contents 10 directory
directory-IsDirectory = record { sane = directory-Sane; whole = refl; small = omega arith }

entry_zero : matches name_b (entry_at contents directory 0) ≡ false
unfolding matches entry_at bytes_at byte_at byte_in mapped slot entry_of words same_string contents
    pad
entry_zero = refl

entry_one : matches name_a (entry_at contents directory 1) ≡ false
unfolding matches entry_at bytes_at byte_at byte_in mapped slot entry_of words same_string contents
    pad
entry_one = refl

entry_one_b : matches name_b (entry_at contents directory 1) ≡ false
unfolding matches entry_at bytes_at byte_at byte_in mapped slot entry_of words same_string contents
    pad
entry_one_b = refl

unique_a : IsUnique contents name_a directory
unique_a zero zero hi hj mi mj = refl
unique_a zero (suc zero) hi hj mi mj = absurd (cc (mj, entry_one))
unique_a zero (suc (suc j)) hi hj mi mj = absurd (omega arith)
unique_a (suc zero) j hi hj mi mj = absurd (cc (mi, entry_one))
unique_a (suc (suc i)) j hi hj mi mj = absurd (omega arith)

unique_b : IsUnique contents name_b directory
unique_b zero j hi hj mi mj = absurd (cc (mi, entry_zero))
unique_b (suc zero) j hi hj mi mj = absurd (cc (mi, entry_one_b))
unique_b (suc (suc i)) j hi hj mi mj = absurd (omega arith)

name_b-IsName : IsName name_b
unfolding IsName
name_b-IsName zero h = (omega arith, omega arith)
name_b-IsName (suc i) h = absurd (omega arith)

small_bytes : (i : ℕ) → get_or (1 ∷ 2 ∷ []) i 0 < 256
small_bytes zero = omega arith
small_bytes (suc zero) = omega arith
small_bytes (suc (suc i)) = omega arith

metaio-Read_example :
    Ensures
      (MetaRead contents 10 directory 64 2)
      (MetaFailed contents 10 directory)
      (metaio disk 64 (0 ∷ 0 ∷ []) uio_read directory)
metaio-Read_example =
    metaio-Read disk-IsDisk directory-Sane 64 (0 ∷ 0 ∷ []) (omega arith) (omega arith)

metaio-Written_example :
    Ensures
      (λ _ f'. MetaWritten contents 10 directory 700 (1 ∷ 2 ∷ []) f')
      (MetaFailed contents 10 directory)
      (metaio disk 700 (1 ∷ 2 ∷ []) uio_write directory)
metaio-Written_example =
    metaio-Written disk-IsDisk directory-Sane 700 (1 ∷ 2 ∷ []) (omega arith) small_bytes
      (omega arith)

dir_findname-Found_example :
    Ensures
      (λ r f'.
        Unchanged contents 10 directory f'
        × (r.slot < slots directory)
        × (matches name_a (entry_at contents directory r.slot) ≡ true)
        × (r.ino ≡ (entry_at contents directory r.slot).ino)
        × ((s : ℕ)
            → r.emptyslot ≡ some s
            → (s < slots directory) × ((entry_at contents directory s).ino ≡ 0)))
      (NotFound contents 10 name_a directory)
      (dir_findname disk type_dir name_a directory)
dir_findname-Found_example =
    dir_findname-Found disk-IsDisk type_dir name_a directory directory-IsDirectory unique_a refl

dir_link-Linked_example :
    Ensures
      (λ slot f'.
        (length name_b < namelen)
        × IsFree contents 10 directory slot
        × ((j : ℕ) → j < slots directory → matches name_b (entry_at contents directory j) ≡ false)
        × Entered contents 10 directory slot (new_entry name_b 8) f')
      (NotLinked contents 10 directory name_b)
      (dir_link disk type_dir name_b 8 directory)
dir_link-Linked_example =
    dir_link-Linked disk-IsDisk type_dir name_b 8 directory directory-IsDirectory unique_b refl
      name_b-IsName (omega arith)

dir_link-dir_findname_example :
    Ensures
      (λ r f''. (r.ino ≡ 8) × (entry_at contents f'' r.slot ≡ new_entry name_b 8))
      (λ e f''. e ≢ enoent)
      ((dir_link disk type_dir name_b 8 >>= λ slot. dir_findname disk type_dir name_b) directory)
dir_link-dir_findname_example =
    dir_link-dir_findname disk-IsDisk type_dir name_b 8 directory directory-IsDirectory unique_b
      refl name_b-IsName (omega arith) (λ z. omega arith) (omega arith) (omega arith)

dir_unlink-Emptied_example :
    Ensures
      (λ _ f'. Entered contents 10 directory 0 empty_entry f' × (f'.sv.size ≡ 128))
      (λ e f'. MetaFailed contents 10 directory e f' × ¬ CannotFail disk contents 10 directory 0)
      (dir_unlink disk type_dir 0 directory)
dir_unlink-Emptied_example =
    dir_unlink-Emptied disk-IsDisk type_dir 0 directory-IsDirectory (omega arith)
