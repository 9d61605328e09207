-- ===== src/Sfs/Dir/Entries.antt =====
-- The entries of a directory, as its bytes give them.
use ops_class.Base.{
  ℕ, zero, suc, ◌+◌, ◌-◌, ◌*◌, ◌^◌, ◌<◌, ◌≤◌, ◌≡◌, ◌≢◌, refl, sym, ◌∙◌, ap, ap₂, true, false, ◌&&◌,
  List, [], ◌∷◌, ◌++◌, ltb, leb, length, get_or, set, replicate, arith, length-append,
  length-replicate, eq→==, ne→==,
}
use ops_class.Sfs.Device.{Contents}
use ops_class.Sfs.Words.{words, bytes_of}
use ops_class.Sfs.State.{File}
use ops_class.Sfs.Metaio.Bytes.{byte_at}
use ops_class.Sfs.Metaio.Outcome.{Unchanged, MetaWritten}
use ops_class.Sfs.Dir.{
  Direntry, namelen, direntry_size, entry_of, entry_bytes, same_string, matches, new_entry,
}

pub list_ext :
    (xs ys : List ℕ)
    → length xs ≡ length ys
    → ((i : ℕ) → i < length ys → get_or xs i 0 ≡ get_or ys i 0)
    → xs ≡ ys
list_ext [] [] e h = refl
list_ext [] (y ∷ ys) e h = absurd (omega arith)
list_ext (x ∷ xs) [] e h = absurd (omega arith)
list_ext (x ∷ xs) (y ∷ ys) e h =
    ap₂ ◌∷◌ (h 0 (omega arith)) (list_ext xs ys (omega arith) (λ i small. h (suc i) (omega arith)))

module _ {D : Type 0} (contents : D → Contents) (f : File D) where
  unfoldable pub bytes_at : ℕ → ℕ → List ℕ
  bytes_at pos zero = []
  bytes_at pos (suc n) = byte_at contents f pos ∷ bytes_at (pos + 1) n

  unfoldable pub entry_at : ℕ → Direntry
  unfolding bytes_at
  entry_at slot = entry_of (bytes_at (slot * direntry_size) direntry_size)

  pub length-bytes_at : (pos n : ℕ) → length (bytes_at pos n) ≡ n
  unfolding bytes_at
  length-bytes_at pos zero = refl
  length-bytes_at pos (suc n) = ap suc (length-bytes_at (pos + 1) n)

  pub get_or-bytes_at :
      (n pos i : ℕ) → i < n → get_or (bytes_at pos n) i 0 ≡ byte_at contents f (pos + i)
  unfolding bytes_at
  get_or-bytes_at zero pos i h = absurd (omega arith)
  get_or-bytes_at (suc n) pos zero h = ap (byte_at contents f) (omega arith)
  get_or-bytes_at (suc n) pos (suc i) h =
      get_or-bytes_at n (pos + 1) i (omega arith) ∙ ap (byte_at contents f) (omega arith)

module _ {D : Type 0} (contents : D → Contents) (f f' : File D) where
  bytes_at-same :
      (n pos : ℕ)
      → ((p : ℕ) → pos ≤ p → p < pos + n → byte_at contents f' p ≡ byte_at contents f p)
      → bytes_at contents f' pos n ≡ bytes_at contents f pos n
  unfolding bytes_at
  bytes_at-same zero pos h = refl
  bytes_at-same (suc n) pos h =
      ap₂ ◌∷◌ (h pos (omega arith) (omega arith))
        (bytes_at-same n (pos + 1) (λ p low high. h p (omega arith) (omega arith)))

  pub entry_at-Unchanged :
      {size : ℕ}
      → Unchanged contents size f f'
      → (slot : ℕ) → entry_at contents f' slot ≡ entry_at contents f slot
  unfolding entry_at byte_at
  entry_at-Unchanged same slot =
      ap entry_of
        (bytes_at-same direntry_size (slot * direntry_size) (λ p low high. same.bytes _ _))

  module _ (slot : ℕ) (bytes : List ℕ) (full : length bytes ≡ direntry_size) {size : ℕ}
      (w : MetaWritten contents size f (slot * direntry_size) bytes f') where
    pub entry_at-written : entry_at contents f' slot ≡ entry_of bytes
    unfolding entry_at
    entry_at-written = ap entry_of (
        list_ext (bytes_at contents f' (slot * direntry_size) direntry_size) bytes
          (length-bytes_at contents f' (slot * direntry_size) direntry_size ∙ sym full)
          (λ i h.
            get_or-bytes_at contents f' direntry_size (slot * direntry_size) i (omega arith)
            ∙ w.now (slot * direntry_size + i)
            ∙ (rw (inside i h) (ap (λ j. get_or bytes j 0) (omega arith)))))
      where
        inside :
            (i : ℕ)
            → i < length bytes
            → (leb (slot * direntry_size) (slot * direntry_size + i)
                && ltb (slot * direntry_size + i) (slot * direntry_size + length bytes))
              ≡ true
        inside i h = ground arith

    pub entry_at-elsewhere : (j : ℕ) → j ≢ slot → entry_at contents f' j ≡ entry_at contents f j
    unfolding entry_at
    entry_at-elsewhere j ne = ap entry_of (
        bytes_at-same direntry_size (j * direntry_size)
          (λ p low high. w.now p ∙ rw (outside p low high) refl))
      where
        outside :
            (p : ℕ)
            → j * direntry_size ≤ p
            → p < j * direntry_size + direntry_size
            → (leb (slot * direntry_size) p && ltb p (slot * direntry_size + length bytes)) ≡ false
        outside p low high = ground arith

-- An entry is read as it was written.
pub entry_of-entry_bytes : (e : Direntry) → e.ino < 2 ^ 32 → entry_of (entry_bytes e) ≡ e
unfolding entry_of entry_bytes words bytes_of
entry_of-entry_bytes e small = ap (λ i. record { ino = i; name = e.name }) (omega arith)

pub length-entry_bytes :
    (e : Direntry) → length e.name ≡ namelen → length (entry_bytes e) ≡ direntry_size
unfolding entry_bytes bytes_of
length-entry_bytes e full = omega arith

pub entry_bytes-lt :
    (e : Direntry)
    → ((i : ℕ) → get_or e.name i 0 < 256)
    → (i : ℕ) → get_or (entry_bytes e) i 0 < 256
unfolding entry_bytes bytes_of
entry_bytes-lt e small zero = omega arith
entry_bytes-lt e small (suc zero) = omega arith
entry_bytes-lt e small (suc (suc zero)) = omega arith
entry_bytes-lt e small (suc (suc (suc zero))) = omega arith
entry_bytes-lt e small (suc (suc (suc (suc i)))) = small i

-- A file name: characters other than NUL.
unfoldable pub IsName : List ℕ → Type 0
IsName name = (i : ℕ) → i < length name → (0 < get_or name i 0) × (get_or name i 0 < 256)

pub length-new_name :
    (name : List ℕ)
    → length name ≤ namelen
    → length (name ++ replicate (namelen - length name) 0) ≡ namelen
length-new_name name short = omega (
  arith,
  length-append name (replicate (namelen - length name) 0),
  length-replicate {A = ℕ} (namelen - length name) 0,
)

new_name-lt :
    (name : List ℕ) (k i : ℕ)
    → ((j : ℕ) → j < length name → get_or name j 0 < 256)
    → get_or (name ++ replicate k 0) i 0 < 256
new_name-lt [] zero i h = omega arith
new_name-lt [] (suc k) zero h = omega arith
new_name-lt [] (suc k) (suc i) h = new_name-lt [] k i (λ j small. absurd (omega arith))
new_name-lt (x ∷ xs) k zero h = h 0 (omega arith)
new_name-lt (x ∷ xs) k (suc i) h = new_name-lt xs k i (λ j small. h (suc j) (omega arith))

pub new_entry-lt :
    (name : List ℕ) (ino : ℕ)
    → IsName name
    → (i : ℕ) → get_or (entry_bytes (new_entry name ino)) i 0 < 256
unfolding IsName
new_entry-lt name ino h =
    entry_bytes-lt (new_entry name ino)
      (λ i. new_name-lt name (namelen - length name) i (λ j small. (h j small).1))

same_string-padded :
    (name : List ℕ) (k j : ℕ)
    → length name ≤ j
    → IsName name
    → same_string (set (name ++ replicate k 0) j 0) name ≡ true
unfolding same_string IsName
same_string-padded [] zero j h n = refl
same_string-padded [] (suc k) zero h n = refl
same_string-padded [] (suc k) (suc j) h n = refl
same_string-padded (x ∷ xs) k zero h n = absurd (omega arith)
same_string-padded (x ∷ xs) k (suc j) h n =
    rw (ne→== x 0 (λ z. omega (arith, (n 0 (omega arith)).0)), eq→== x x refl)
      (same_string-padded xs k j (omega arith) (λ i small. n (suc i) (omega arith)))

pub matches-new_entry :
    (name : List ℕ) (ino : ℕ)
    → ino ≢ 0
    → length name + 1 ≤ namelen
    → IsName name
    → matches name (new_entry name ino) ≡ true
unfolding matches
matches-new_entry name ino ne short n =
    rw (ne→== ino 0 ne)
      (same_string-padded name (namelen - length name) (namelen - 1) (omega arith) n)
