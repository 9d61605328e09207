-- ===== src/Sfs/Dir.antt =====
-- kern/fs/sfs/sfs_dir.c: directories, as files of entries of 64 bytes.
pub mod Entries
pub mod Search
pub mod Link
pub mod Again
use ops_class.Base.{
  ℕ, zero, suc, ◌^◌, ◌+◌, ◌-◌, ◌*◌, ◌/◌, ◌%◌, Bool, true, false, not, ◌&&◌, List, [], ◌∷◌, ◌++◌,
  ◌==◌, ltb, if◌then◌else◌, length, get_or, set, drop, replicate, Option, none, some,
}
use ops_class.Base.Run.{
  Cmd, Run, done, fail, panicked, blocked, enoent, eexist, enametoolong, ◌>>=◌, ◌>>◌,
}
use ops_class.Sfs.Device.{Device}
use ops_class.Sfs.Words.{words, bytes_of}
use ops_class.Sfs.State.{File}
use ops_class.Sfs.Metaio.{uio_read, uio_write, metaio}

-- `struct sfs_direntry`.
pub record Direntry : Type 0 where
  pub ino : ℕ
  pub name : List ℕ

-- `sizeof(sd.sfd_name)` and `sizeof(struct sfs_direntry)`.
abbrev pub namelen : ℕ
namelen = 60

abbrev pub direntry_size : ℕ
direntry_size = 64

abbrev pub type_dir : ℕ
type_dir = 2

-- The entry in 64 bytes, and the bytes of an entry.
unfoldable pub entry_of : List ℕ → Direntry
entry_of bytes = record { ino = get_or (words 1 bytes) 0 0; name = drop 4 bytes }

unfoldable pub entry_bytes : Direntry → List ℕ
entry_bytes e = bytes_of (e.ino ∷ []) ++ e.name

-- `strcmp(a, b) == 0` for the strings that start at the two arrays; an array's end ends its string.
unfoldable pub same_string : List ℕ → List ℕ → Bool
same_string [] [] = true
same_string [] (b ∷ bs) = b == 0
same_string (a ∷ as_) [] = a == 0
same_string (a ∷ as_) (b ∷ bs) =
    let rest = same_string as_ bs in if a == 0 then b == 0 else if a == b then rest else false

-- The test that `sfs_dir_findname` makes on an entry, which it ends with a NUL first.
unfoldable pub matches : List ℕ → Direntry → Bool
unfolding same_string
matches name e = not (e.ino == 0) && same_string (set e.name (namelen - 1) 0) name

-- `found`, `*ino`, `*slot` and `*emptyslot`, which starts as -1.
pub record Found : Type 0 where
  pub found : Bool
  pub ino : ℕ
  pub slot : ℕ
  pub emptyslot : Option ℕ

abbrev pub nothing_yet : Found
nothing_yet = record { found = false; ino = 0; slot = 0; emptyslot = none }

-- What is made of the entry in slot `i`; the name must not appear twice.
pub looked_at : {D : Type 0} → List ℕ → ℕ → Direntry → Found → Cmd (File D) Found
looked_at name i tsd acc f =
    if tsd.ino == 0
    then done (record acc { emptyslot = some i }) f
    else if matches name tsd
    then if acc.found
      then panicked
      else done (record acc { found = true; ino = tsd.ino; slot = i }) f
    else done acc f

-- The entry that `sfs_dir_link` sets up.
abbrev pub new_entry : List ℕ → ℕ → Direntry
new_entry name ino = record { ino = ino; name = name ++ replicate (namelen - length name) 0 }

abbrev pub empty_entry : Direntry
empty_entry = record { ino = 0; name = replicate namelen 0 }

-- The inode's type `sfi_type` is a parameter: nothing here changes it.
module _ {D : Type 0} (dev : Device D) (sfi_type : ℕ) where
  pub readdir : ℕ → Cmd (File D) Direntry
  readdir slot =
      metaio dev (slot * direntry_size % 2 ^ 32) (replicate direntry_size 0) uio_read >>= λ bytes.
      done (entry_of bytes)

  pub writedir : ℕ → Direntry → Cmd (File D) (List ℕ)
  writedir slot sd = metaio dev (slot * direntry_size % 2 ^ 32) (entry_bytes sd) uio_write

  pub nentries : Cmd (File D) ℕ
  nentries f =
      if not (sfi_type == type_dir)
      then panicked
      else if not (f.sv.size % direntry_size == 0)
      then panicked
      else done (f.sv.size / direntry_size) f

  -- The loop over the slots from `i` on, with the rounds that are left.
  pub search : ℕ → ℕ → List ℕ → Found → Cmd (File D) Found
  search zero i name acc = done acc
  search (suc n) i name acc = do
    tsd ← readdir i
    acc ← looked_at name i tsd acc
    search n (i + 1) name acc

  -- `sfs_dir_findname` up to its last line.
  pub dir_search : List ℕ → Cmd (File D) Found
  dir_search name = do nentries ← nentries; search nentries 0 name nothing_yet

  unfoldable pub dir_findname : List ℕ → Cmd (File D) Found
  unfolding dir_search search readdir looked_at nentries
  dir_findname name = do r ← dir_search name; (λ f. if r.found then done r f else fail enoent f)

  pub free_slot : Option ℕ → Cmd (File D) ℕ
  free_slot none = nentries
  free_slot (some emptyslot) = done emptyslot

  pub link_at : List ℕ → ℕ → Found → Cmd (File D) ℕ
  link_at name ino r f =
      if r.found
      then fail eexist f
      else if ltb namelen (length name + 1)
      then fail enametoolong f
      else (do
        emptyslot ← free_slot r.emptyslot
        _ ← writedir emptyslot (new_entry name ino)
        done emptyslot)
          f

  unfoldable pub dir_link : List ℕ → ℕ → Cmd (File D) ℕ
  unfolding dir_search search readdir writedir looked_at nentries free_slot link_at
  dir_link name ino = dir_search name >>= link_at name ino

  unfoldable pub dir_unlink : ℕ → Cmd (File D) (List ℕ)
  unfolding writedir
  dir_unlink slot = writedir slot empty_entry
