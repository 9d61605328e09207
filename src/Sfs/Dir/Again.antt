-- ===== src/Sfs/Dir/Again.antt =====
-- A name that was linked is found again.
use ops_class.Base.{
  ℕ, ◌+◌, ◌^◌, ◌<◌, ◌≤◌, ◌≡◌, ◌≢◌, refl, sym, ◌∙◌, ap, true, false, Bool-cases, List, ◌==◌, ==→eq,
  ==→ne, length, arith, ◌⊎◌, inl, inr,
}
use ops_class.Base.Run.{Errno, enoent, eio, enospc, efbig, ◌>>=◌, Ensures, bind, mono}
use ops_class.Sfs.Device.{Device, Contents, IsDisk}
use ops_class.Sfs.State.{File}
use ops_class.Sfs.Metaio.Outcome.{MetaFailed}
use ops_class.Sfs.Dir.{namelen, direntry_size, type_dir, matches, new_entry, dir_link, dir_findname}
use ops_class.Sfs.Dir.Entries.{entry_at, entry_at-Unchanged, IsName, matches-new_entry}
use ops_class.Sfs.Dir.Search.{
  slots, IsDirectory, IsUnique, dir_findname-Found, NotFound, absent, broken,
}
use ops_class.Sfs.Dir.Link.{IsFree, Entered, NotLinked, exists, too_long, dir_link-Linked}

not-enoent :
    {D : Type 0} {contents : D → Contents} {size : ℕ} {f f' : File D} {e : Errno}
    → MetaFailed contents size f e f'
    → e ≢ enoent
not-enoent failed z = go failed.why z
  where
    go : {e : Errno} → (e ≡ eio) ⊎ (e ≡ enospc) ⊎ (e ≡ efbig) → e ≢ enoent
    go (inl h) z = absurd (cc)
    go (inr (inl h)) z = absurd (cc)
    go (inr (inr h)) z = absurd (cc)

module _ {D : Type 0} {dev : Device D} {contents : D → Contents} {size : ℕ}
    (disk : IsDisk dev contents size) (sfi_type : ℕ) where
  module _ (name : List ℕ) (ino : ℕ) (f : File D) (dir : IsDirectory contents size f)
      (unique : IsUnique contents name f) (is_dir : sfi_type ≡ type_dir) (is_name : IsName name)
      (small : ino < 2 ^ 32) where
    -- The directory after a link.
    module _ (some_ : ino ≢ 0) (short : length name + 1 ≤ namelen)
        (room : f.sv.size + direntry_size < 2 ^ 32) (slot : ℕ) (f' : File D)
        (free : IsFree contents size f slot)
        (absent_ : (j : ℕ) → j < slots f → matches name (entry_at contents f j) ≡ false)
        (ent : Entered contents size f slot (new_entry name ino) f') where
      linked_dir : IsDirectory contents size f'
      linked_dir = record {
        sane = ent.sane;
        whole = ground (arith, ent.now_size, dir.whole);
        small = ground (arith, ent.now_size, room);
      }

      linked_slots : (j : ℕ) → j < slots f' → j ≢ slot → j < slots f
      linked_slots j h ne = elim (Bool-cases (slot == slots f)) [
        | inl end ↦
            let e : f'.sv.size ≡ f.sv.size + direntry_size = ent.now_size ∙ rw end refl in
            let e' = ==→eq slot (slots f) end in omega (arith, dir.whole)
        | inr within ↦ let e : f'.sv.size ≡ f.sv.size = ent.now_size ∙ rw within refl in omega arith
      ]

      only_there : (j : ℕ) → j < slots f' → matches name (entry_at contents f' j) ≡ true → j ≡ slot
      only_there j h m = elim (Bool-cases (j == slot)) [
        | inl is ↦ ==→eq j slot is
        | inr other ↦
            let ne = ==→ne j slot other in
            let old = absent_ j (linked_slots j h ne) in
            let e = ap (matches name) (ent.others j ne) in absurd (cc)
      ]

      slot_there : slot < slots f'
      slot_there = elim (Bool-cases (slot == slots f)) [
        | inl end ↦
            let e : f'.sv.size ≡ f.sv.size + direntry_size = ent.now_size ∙ rw end refl in
            let e' = ==→eq slot (slots f) end in omega arith
        | inr within ↦
            let e : f'.sv.size ≡ f.sv.size = ent.now_size ∙ rw within refl in
            let ne = ==→ne slot (slots f) within in go free e ne
      ]
        where
          go :
              IsFree contents size f slot
              → f'.sv.size ≡ f.sv.size
              → slot ≢ slots f
              → slot < slots f'
          go (inl (low, zero_)) e ne = omega arith
          go (inr (end, all)) e ne = absurd (ne end)

      there : matches name (entry_at contents f' slot) ≡ true
      there = ap (matches name) ent.here ∙ matches-new_entry name ino some_ short is_name

      found_again :
          Ensures
            (λ r f''. (r.ino ≡ ino) × (entry_at contents f'' r.slot ≡ new_entry name ino))
            (λ e f''. e ≢ enoent)
            (dir_findname dev sfi_type name f')
      found_again =
          mono
            (dir_findname-Found disk sfi_type name f' linked_dir
              (λ i j hi hj mi mj. only_there i hi mi ∙ sym (only_there j hj mj)) is_dir)
            (λ r f'' (same, low, m, e, free').
              let at_slot = only_there r.slot low m in
              let entry = ap (entry_at contents f') at_slot ∙ ent.here in
              (e ∙ ap (λ d. d.ino) entry, entry_at-Unchanged contents f' f'' same r.slot ∙ entry))
            (λ e f'' nf. missing nf)
        where
          missing : {e : Errno} {f'' : File D} → NotFound contents size name f' e f'' → e ≢ enoent
          missing (absent same none_) z = absurd (cc (none_ slot slot_there, there))
          missing (broken failed) z = not-enoent failed z

    -- In such a directory, `sfs_dir_link` of a new name of less than 60 characters and then
    -- `sfs_dir_findname` of it hand back the inode number that was linked, from an entry that is the
    -- one written; no error is ENOENT.
    pub dir_link-dir_findname :
        ino ≢ 0
        → length name + 1 ≤ namelen
        → f.sv.size + direntry_size < 2 ^ 32
        → Ensures
            (λ r f''. (r.ino ≡ ino) × (entry_at contents f'' r.slot ≡ new_entry name ino))
            (λ e f''. e ≢ enoent)
            ((dir_link dev sfi_type name ino >>= λ slot. dir_findname dev sfi_type name) f)
    dir_link-dir_findname some_ short room =
        bind (dir_link-Linked disk sfi_type name ino f dir unique is_dir is_name small)
          (λ slot f' (shorter, free, absent_, ent).
            found_again some_ short room slot f' free absent_ ent)
          (λ e f' nl. not_linked nl)
      where
        not_linked : {e : Errno} {f' : File D} → NotLinked contents size f name e f' → e ≢ enoent
        not_linked (exists j low m same) z = absurd (cc)
        not_linked (too_long long none_ same) z = absurd (cc)
        not_linked (NotLinked.broken failed) z = not-enoent failed z
