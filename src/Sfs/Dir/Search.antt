-- ===== src/Sfs/Dir/Search.antt =====
-- `sfs_dir_findname`: the search for a name.
use ops_class.Base.{
  ℕ, zero, suc, ◌+◌, ◌*◌, ◌/◌, ◌%◌, ◌^◌, ◌<◌, ◌≡◌, ◌≢◌, refl, sym, ◌∙◌, ap, subst, true, false,
  Bool-cases, List, ◌==◌, ==→eq, ==→ne, eq→==, replicate, arith, none, some, ◌⊎◌, inl, inr,
}
use ops_class.Base.Run.{done, Errno, enoent, Ensures, returns, fails, bind}
use ops_class.Sfs.Device.{Device, Contents, IsDisk}
use ops_class.Sfs.State.{File}
use ops_class.Sfs.Bmap.Map.{Sane}
use ops_class.Sfs.Metaio.Outcome.{Unchanged, MetaFailed}
use ops_class.Sfs.Metaio.Read.{metaio-Read}
use ops_class.Sfs.Dir.{
  Direntry, direntry_size, type_dir, entry_of, matches, Found, nothing_yet, looked_at, readdir,
  nentries, search, dir_search, dir_findname,
}
use ops_class.Sfs.Dir.Entries.{
  bytes_at, entry_at, entry_at-Unchanged, length-bytes_at, get_or-bytes_at, list_ext,
}

module _ {D : Type 0} {contents : D → Contents} {size : ℕ} {f f1 : File D} where
  pub Unchanged-trans :
      {f2 : File D}
      → Unchanged contents size f f1
      → Unchanged contents size f1 f2
      → Unchanged contents size f f2
  Unchanged-trans a b = record {
    sane = b.sane;
    bytes = λ k i. b.bytes k i ∙ a.bytes k i;
    same_size = b.same_size ∙ a.same_size;
  }

  pub MetaFailed-after :
      {e : Errno} {f2 : File D}
      → Unchanged contents size f f1
      → MetaFailed contents size f1 e f2
      → MetaFailed contents size f e f2
  MetaFailed-after a b = record {
    why = b.why;
    ready = b.ready;
    same_size = b.same_size ∙ a.same_size;
  }

abbrev pub slots : {D : Type 0} → File D → ℕ
slots f = f.sv.size / direntry_size

-- A directory of whole entries.
pub record IsDirectory {D : Type 0} (contents : D → Contents) (size : ℕ) (f : File D) : Type 0 where
  pub sane : Sane contents size f
  pub whole : f.sv.size % direntry_size ≡ 0
  pub small : f.sv.size < 2 ^ 32

module _ {D : Type 0} (contents : D → Contents) (name : List ℕ) (f : File D) where
  -- The name does not stand in two slots.
  abbrev pub IsUnique : Type 0
  IsUnique =
      (i j : ℕ)
      → i < slots f
      → j < slots f
      → matches name (entry_at contents f i) ≡ true
      → matches name (entry_at contents f j) ≡ true
      → i ≡ j

  -- What is known when the slots below `i` have been looked at.
  pub record Searched (i : ℕ) (acc : Found) : Type 0 where
    pub hit :
        acc.found ≡ true
        → (acc.slot < i)
          × (matches name (entry_at contents f acc.slot) ≡ true)
          × (acc.ino ≡ (entry_at contents f acc.slot).ino)
    pub miss : acc.found ≡ false → (j : ℕ) → j < i → matches name (entry_at contents f j) ≡ false
    pub empty : (s : ℕ) → acc.emptyslot ≡ some s → (s < i) × ((entry_at contents f s).ino ≡ 0)
    pub full : acc.emptyslot ≡ none → (j : ℕ) → j < i → (entry_at contents f j).ino ≢ 0

  nothing_yet-Searched : Searched 0 nothing_yet
  nothing_yet-Searched = record {
    hit = λ h. absurd (cc);
    miss = λ h j small. absurd (omega arith);
    empty = λ s h. absurd (cc);
    full = λ h j small. absurd (omega arith);
  }

  -- An entry of inode 0 has no name.
  no_match : (e : Direntry) → (e.ino == 0) ≡ true → matches name e ≡ false
  unfolding matches
  no_match e h = rw h refl

  last : (i j : ℕ) → j < i + 1 → (j < i) ⊎ (j ≡ i)
  last i j h = elim (Bool-cases (j == i)) [
    | inl is ↦ inr (==→eq j i is)
    | inr other ↦ let ne = ==→ne j i other in inl (omega arith)
  ]

  looked_at_lem :
      (i : ℕ) (acc : Found) (f1 : File D)
      → IsUnique
      → i < slots f
      → Searched i acc
      → (acc' : Found) × (looked_at name i (entry_at contents f i) acc f1 ≡ done acc' f1)
        × Searched (i + 1) acc'
  unfolding looked_at
  looked_at_lem i acc f1 unique inside se = elim (Bool-cases ((entry_at contents f i).ino == 0)) [
    | inl free ↦ (
      record acc { emptyslot = some i },
      rw free refl,
      record {
        hit = λ h. let (low, m, e) = se.hit h in (omega arith, m, e);
        miss = λ h j small. elim (last i j small) [
          | inl old ↦ se.miss h j old
          | inr is ↦
              ap (λ k. matches name (entry_at contents f k)) is
              ∙ no_match (entry_at contents f i) free
        ];
        empty = λ s h.
            let is : i ≡ s = cc in
            (omega arith, sym (ap (λ k. (entry_at contents f k).ino) is) ∙ ==→eq _ 0 free);
        full = λ h. absurd (cc);
      },
    )
    | inr used ↦ elim (Bool-cases (matches name (entry_at contents f i))) [
      | inl match ↦ elim (Bool-cases acc.found) [
        | inl twice ↦
            let (low, m, e) = se.hit twice in
            absurd (lt_irrefl (unique acc.slot i (omega arith) inside m match) low)
        | inr first ↦ (
          record acc { found = true; ino = (entry_at contents f i).ino; slot = i },
          rw (used, match, first) refl,
          record {
            hit = λ h. (omega arith, match, refl);
            miss = λ h. absurd (cc);
            empty = λ s h. let (low, e) = se.empty s h in (omega arith, e);
            full = λ h j small. elim (last i j small) [
              | inl old ↦ se.full h j old
              | inr is ↦ λ z. ==→ne _ 0 used (sym (ap (λ k. (entry_at contents f k).ino) is) ∙ z)
            ];
          },
        )
      ]
      | inr other ↦ (
        acc,
        rw (used, other) refl,
        record {
          hit = λ h. let (low, m, e) = se.hit h in (omega arith, m, e);
          miss = λ h j small. elim (last i j small) [
            | inl old ↦ se.miss h j old
            | inr is ↦ ap (λ k. matches name (entry_at contents f k)) is ∙ other
          ];
          empty = λ s h. let (low, e) = se.empty s h in (omega arith, e);
          full = λ h j small. elim (last i j small) [
            | inl old ↦ se.full h j old
            | inr is ↦ λ z. ==→ne _ 0 used (sym (ap (λ k. (entry_at contents f k).ino) is) ∙ z)
          ];
        },
      )
    ]
  ]
    where
      lt_irrefl : {a b : ℕ} → a ≡ b → a < b → ⊥
      lt_irrefl e h = omega arith

module _ {D : Type 0} (contents : D → Contents) (size : ℕ) (name : List ℕ) (f : File D) where
  -- How a search for the name may fail.
  pub data NotFound : Errno → File D → Type 0 where
    absent :
        {f' : File D}
        → Unchanged contents size f f'
        → ((j : ℕ) → j < slots f → matches name (entry_at contents f j) ≡ false)
        → NotFound enoent f'
    broken : {e : Errno} {f' : File D} → MetaFailed contents size f e f' → NotFound e f'

module _ {D : Type 0} {dev : Device D} {contents : D → Contents} {size : ℕ}
    (disk : IsDisk dev contents size) (sfi_type : ℕ) where
  pub readdir_lem :
      {f : File D} (slot : ℕ)
      → Sane contents size f
      → slot * direntry_size < 2 ^ 32
      → Ensures
          (λ e f'. Unchanged contents size f f' × (e ≡ entry_at contents f slot))
          (MetaFailed contents size f)
          (readdir dev sfi_type slot f)
  unfolding readdir entry_at
  readdir_lem {f} slot sane small =
      let flat : slot * direntry_size % 2 ^ 32 ≡ slot * direntry_size = omega (arith, small) in
      rw flat (
        bind
          (metaio-Read disk sane (slot * direntry_size) (replicate direntry_size 0) (omega arith)
            (omega (arith, small)))
          (λ bytes f' r. returns (
            r.unchanged,
            ap entry_of (
                list_ext bytes (bytes_at contents f (slot * direntry_size) direntry_size)
                  (r.sized ∙ sym (length-bytes_at contents f (slot * direntry_size) direntry_size))
                  (λ i h.
                    let in_ : i < direntry_size =
                      omega
                        (arith, length-bytes_at contents f (slot * direntry_size) direntry_size) in
                    r.got i in_
                    ∙ sym (get_or-bytes_at contents f direntry_size (slot * direntry_size) i in_))),
          ))
          (λ e f' failed. failed))

  module _ (name : List ℕ) (f : File D) (dir : IsDirectory contents size f)
      (unique : IsUnique contents name f) where
    search_lem :
        (n i : ℕ) (acc : Found) (f1 : File D)
        → i + n ≡ slots f
        → Unchanged contents size f f1
        → Searched contents name f i acc
        → Ensures
            (λ acc' f'. Unchanged contents size f f' × Searched contents name f (slots f) acc')
            (MetaFailed contents size f)
            (search dev sfi_type n i name acc f1)
    unfolding search
    search_lem zero i acc f1 e same se =
        returns (same, subst (λ k. Searched contents name f k acc) (omega arith) se)
    search_lem (suc n) i acc f1 e same se =
        bind (readdir_lem i same.sane (omega (arith, dir.small, dir.whole, e)))
          (λ tsd f2 (same', at_i).
            let (acc', run, se') = looked_at_lem contents name f i acc f2 unique (omega arith) se in
            rw (at_i, entry_at-Unchanged contents f f1 same i, run)
              (search_lem n (i + 1) acc' f2 (omega arith) (Unchanged-trans same same') se'))
          (λ e f2 failed. MetaFailed-after same failed)

    pub dir_search_lem :
        sfi_type ≡ type_dir
        → Ensures
            (λ r f'. Unchanged contents size f f' × Searched contents name f (slots f) r)
            (MetaFailed contents size f)
            (dir_search dev sfi_type name f)
    unfolding dir_search nentries
    dir_search_lem is_dir =
        rw (eq→== sfi_type type_dir is_dir, eq→== (f.sv.size % direntry_size) 0 dir.whole)
          (search_lem (slots f) 0 nothing_yet f (omega arith)
            (record { sane = dir.sane; bytes = λ k i. refl; same_size = refl })
            (nothing_yet-Searched contents name f))

    -- In a directory of whole entries in which the name stands at most once, `sfs_dir_findname`
    -- changes nothing and does not panic: it hands back the slot of the name and the inode number
    -- there, or fails with ENOENT just if no slot has the name; a slot that it reports as empty is
    -- one; or reading the directory failed.
    pub dir_findname-Found :
        sfi_type ≡ type_dir
        → Ensures
            (λ r f'.
              Unchanged contents size f f'
              × (r.slot < slots f)
              × (matches name (entry_at contents f r.slot) ≡ true)
              × (r.ino ≡ (entry_at contents f r.slot).ino)
              × ((s : ℕ)
                  → r.emptyslot ≡ some s
                  → (s < slots f) × ((entry_at contents f s).ino ≡ 0)))
            (NotFound contents size name f)
            (dir_findname dev sfi_type name f)
    unfolding dir_findname dir_search search readdir looked_at nentries
    dir_findname-Found is_dir =
        bind (dir_search_lem is_dir)
          (λ r f' (same, se). elim (Bool-cases r.found) [
            | inl yes_ ↦
                let (low, m, e) = se.hit yes_ in rw yes_ (returns (same, low, m, e, se.empty))
            | inr no_ ↦ rw no_ (fails (absent same (se.miss no_)))
          ])
          (λ e f' failed. broken failed)
