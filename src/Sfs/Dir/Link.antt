-- ===== src/Sfs/Dir/Link.antt =====
-- `sfs_dir_link` and `sfs_dir_unlink`.
use ops_class.Base.{
  ℕ, ◌+◌, ◌*◌, ◌/◌, ◌%◌, ◌^◌, ◌<◌, ◌≤◌, ◌≡◌, ◌≢◌, refl, ◌∙◌, ap, true, false, Bool-cases, List,
  ◌==◌, ltb, eq→==, ltb→lt, ltb→le, if◌then◌else◌, length, get_or, length-replicate,
  get_or-replicate, arith, Option-cases, ◌⊎◌, inl, inr,
}
use ops_class.Base.Run.{Run, done, Errno, eexist, enametoolong, Ensures, returns, fails, bind, mono}
use ops_class.Sfs.Device.{Device, Contents, IsDisk, block_size}
use ops_class.Sfs.State.{File}
use ops_class.Sfs.Bmap.{ndirect}
use ops_class.Sfs.Bmap.Map.{Sane, block_of}
use ops_class.Sfs.Metaio.Outcome.{Unchanged, MetaFailed}
use ops_class.Sfs.Metaio.Write.{metaio-Written}
use ops_class.Sfs.Metaio.Sure.{Answers, not_failed, metaio_sure}
use ops_class.Sfs.Dir.{
  Direntry, namelen, direntry_size, type_dir, entry_bytes, matches, new_entry, empty_entry, Found,
  writedir, nentries, free_slot, link_at, dir_link, dir_unlink,
}
use ops_class.Sfs.Dir.Entries.{
  entry_at, entry_at-Unchanged, entry_at-written, entry_at-elsewhere, entry_of-entry_bytes,
  length-entry_bytes, entry_bytes-lt, IsName, new_entry-lt, length-new_name,
}
use ops_class.Sfs.Dir.Search.{
  slots, IsDirectory, IsUnique, Searched, MetaFailed-after, dir_search_lem,
}

module _ {D : Type 0} (contents : D → Contents) (size : ℕ) (f : File D) where
  -- Slot `slot` now holds `e`; the other slots are as they were, and the directory has grown just if
  -- the slot is a new one at its end.
  pub record Entered (slot : ℕ) (e : Direntry) (f' : File D) : Type 0 where
    pub sane : Sane contents size f'
    pub here : entry_at contents f' slot ≡ e
    pub others : (j : ℕ) → j ≢ slot → entry_at contents f' j ≡ entry_at contents f j
    pub now_size : f'.sv.size ≡ (if slot == slots f then f.sv.size + direntry_size else f.sv.size)

  -- The slot is an empty one, or a new one where there is none.
  abbrev pub IsFree : ℕ → Type 0
  IsFree slot =
      ((slot < slots f) × ((entry_at contents f slot).ino ≡ 0))
      ⊎ ((slot ≡ slots f) × ((j : ℕ) → j < slots f → (entry_at contents f j).ino ≢ 0))

  -- How a link of the name may fail.
  pub data NotLinked (name : List ℕ) : Errno → File D → Type 0 where
    exists :
        {f' : File D} (j : ℕ)
        → j < slots f
        → matches name (entry_at contents f j) ≡ true
        → Unchanged contents size f f'
        → NotLinked name eexist f'
    too_long :
        {f' : File D}
        → namelen ≤ length name
        → ((j : ℕ) → j < slots f → matches name (entry_at contents f j) ≡ false)
        → Unchanged contents size f f'
        → NotLinked name enametoolong f'
    broken : {e : Errno} {f' : File D} → MetaFailed contents size f e f' → NotLinked name e f'

-- The disk answers every request, and the inode points to the block of the slot.
abbrev pub CannotFail : {D : Type 0} → Device D → (D → Contents) → ℕ → File D → ℕ → Type 0
CannotFail dev contents size f slot =
    Answers dev size
    × (slot * direntry_size / block_size < ndirect)
    × (block_of contents f (slot * direntry_size / block_size) ≢ 0)

module _ {D : Type 0} {dev : Device D} {contents : D → Contents} {size : ℕ}
    (disk : IsDisk dev contents size) (sfi_type : ℕ) where
  -- `sfs_writedir` in a slot of the directory, or just past its last one.
  writedir_lem :
      (f : File D) (slot : ℕ) (e : Direntry)
      → IsDirectory contents size f
      → slot ≤ slots f
      → length e.name ≡ namelen
      → e.ino < 2 ^ 32
      → ((i : ℕ) → get_or (entry_bytes e) i 0 < 256)
      → Ensures
          (λ _ f'. Entered contents size f slot e f')
          (MetaFailed contents size f)
          (writedir dev sfi_type slot e f)
  unfolding writedir
  writedir_lem f slot e dir inside full small bytes =
      let length_ = length-entry_bytes e full in
      let flat : slot * direntry_size % 2 ^ 32 ≡ slot * direntry_size =
        omega (arith, inside, dir.small, dir.whole) in
      rw flat (
        mono
          (metaio-Written disk dir.sane (slot * direntry_size) (entry_bytes e)
            (omega (arith, length_)) bytes (omega (arith, dir.small)))
          (λ _ f' w. record {
            sane = w.sane;
            here =
                entry_at-written contents f f' slot (entry_bytes e) length_ w
                ∙ entry_of-entry_bytes e small;
            others = entry_at-elsewhere contents f f' slot (entry_bytes e) length_ w;
            now_size = ground (arith, w.now_size, length_, dir.whole, inside);
          })
          (λ e' f' failed. failed))

  module _ (name : List ℕ) (ino : ℕ) (f : File D) (dir : IsDirectory contents size f)
      (unique : IsUnique contents name f) (is_dir : sfi_type ≡ type_dir) (is_name : IsName name)
      (small : ino < 2 ^ 32) where
    abbrev pub AfterLink : Run (File D) ℕ → Type 0
    AfterLink =
        Ensures
          (λ slot f'.
            (length name < namelen)
            × IsFree contents size f slot
            × ((j : ℕ) → j < slots f → matches name (entry_at contents f j) ≡ false)
            × Entered contents size f slot (new_entry name ino) f')
          (NotLinked contents size f name)

    module _ (f1 : File D) (same : Unchanged contents size f f1) where
      dir_after : IsDirectory contents size f1
      dir_after = record {
        sane = same.sane;
        whole = ap (λ n. n % direntry_size) same.same_size ∙ dir.whole;
        small = omega (arith, same.same_size, dir.small);
      }

      free_slot_lem :
          (r : Found)
          → Searched contents name f (slots f) r
          → (slot : ℕ) × (free_slot dev sfi_type r.emptyslot f1 ≡ done slot f1)
            × IsFree contents size f slot
      unfolding free_slot nentries
      free_slot_lem r se = elim (Option-cases r.emptyslot) [
        | inl none_ ↦
            let whole = dir_after.whole in
            (
              slots f,
              rw (none_, eq→== sfi_type type_dir is_dir, eq→== (f1.sv.size % direntry_size) 0 whole)
                  (ap (λ n. done (n / direntry_size) f1) same.same_size),
              inr (refl, se.full none_),
            )
        | inr (s, some_) ↦ (s, rw some_ refl, inl (se.empty s some_))
      ]

      Entered-after :
          (slot : ℕ) (e : Direntry) (f' : File D)
          → Entered contents size f1 slot e f'
          → Entered contents size f slot e f'
      Entered-after slot e f' ent = record {
        sane = ent.sane;
        here = ent.here;
        others = λ j ne. ent.others j ne ∙ entry_at-Unchanged contents f f1 same j;
        now_size = ground (arith, ent.now_size, same.same_size);
      }

      link_at_lem :
          (r : Found)
          → Searched contents name f (slots f) r
          → AfterLink (link_at dev sfi_type name ino r f1)
      unfolding link_at
      link_at_lem r se = elim (Bool-cases r.found) [
        | inl yes_ ↦ let (low, m, e) = se.hit yes_ in rw yes_ (fails (exists r.slot low m same))
        | inr no_ ↦ rw no_ (elim (Bool-cases (ltb namelen (length name + 1))) [
          | inl long ↦
              let h = ltb→lt namelen (length name + 1) long in
              rw long (fails (too_long (omega arith) (se.miss no_) same))
          | inr short ↦
              let h = ltb→le namelen (length name + 1) short in
              let (slot, run, free) = free_slot_lem r se in
              rw (short, run)
                (bind
                  (writedir_lem f1 slot (new_entry name ino) dir_after (below slot free)
                    (length-new_name name (omega arith)) small (new_entry-lt name ino is_name))
                  (λ _ f' ent. returns (
                    omega arith,
                    free,
                    se.miss no_,
                    Entered-after slot (new_entry name ino) f' ent,
                  ))
                  (λ e f' failed. broken (MetaFailed-after same failed)))
        ])
      ]
        where
          below : (slot : ℕ) → IsFree contents size f slot → slot ≤ slots f1
          below slot (inl (low, e)) = omega (arith, same.same_size)
          below slot (inr (e, all)) = omega (arith, same.same_size)

    -- In a directory of whole entries in which the name stands at most once, `sfs_dir_link` puts the
    -- name, then of less than 60 characters and in no slot, and inode number into an empty slot, or
    -- into a new one at the end if there is none, and changes no other entry; or it fails with EEXIST
    -- where a slot has the name, with ENAMETOOLONG for 60 characters or more, in both cases with
    -- nothing changed, or as the reads and the write do. It does not panic.
    pub dir_link-Linked : AfterLink (dir_link dev sfi_type name ino f)
    unfolding dir_link
    dir_link-Linked =
        bind (dir_search_lem disk sfi_type name f dir unique is_dir)
          (λ r f1 (same, se). link_at_lem f1 same r se) (λ e f' failed. broken failed)

  -- In a directory of whole entries `sfs_dir_unlink` of one of its slots empties the slot and changes
  -- no other entry and not the size; or it fails with EIO, ENOSPC or EFBIG, the size unchanged and
  -- the entries unknown, and that not where the disk answers every request and the inode points to
  -- the block of the slot. It does not panic.
  pub dir_unlink-Emptied :
      {f : File D} (slot : ℕ)
      → IsDirectory contents size f
      → slot < slots f
      → Ensures
          (λ _ f'. Entered contents size f slot empty_entry f' × (f'.sv.size ≡ f.sv.size))
          (λ e f'. MetaFailed contents size f e f' × ¬ CannotFail dev contents size f slot)
          (dir_unlink dev sfi_type slot f)
  unfolding dir_unlink writedir
  dir_unlink-Emptied {f} slot dir inside =
      let flat : slot * direntry_size % 2 ^ 32 ≡ slot * direntry_size =
        omega (arith, inside, dir.small) in
      not_failed
        (mono
          (writedir_lem f slot empty_entry dir (omega arith) (length-replicate {A = ℕ} namelen 0)
            (omega arith)
            (entry_bytes-lt empty_entry (λ i. omega (arith, get_or-replicate {A = ℕ} namelen i 0))))
          (λ _ f' ent. (ent, ent.now_size ∙ ground arith)) (λ e f' failed. failed))
        (λ (answers, near, some_block). rw flat (
          metaio_sure answers dir.sane (slot * direntry_size) (entry_bytes empty_entry) near
            some_block))
