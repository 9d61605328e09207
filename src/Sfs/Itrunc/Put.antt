-- ===== src/Sfs/Itrunc/Put.antt =====
-- The indirect block after the loop over its slots: freed, written back or left.
use ops_class.Base.{
  ℕ, ◌<◌, ◌≡◌, ◌≢◌, refl, sym, ◌∙◌, true, false, ◌==◌, arith, inl, inr, Bool-cases, ap, subst,
  if◌then◌else◌, get_or, length, List,
}
use ops_class.Base.Run
use ops_class.Base.Run.{Run, done, Ensures, returns, fails}
use ops_class.Bitmap.{isset}
use ops_class.Sfs.Device.{Device, Contents, IsDisk, IsBlock}
use ops_class.Sfs.Words.{
  words, bytes_of, AreWords, words-AreWords, words-bytes_of, length-bytes_of, bytes_of-lt,
  length-words,
}
use ops_class.Sfs.State.{Sfs, File, in_file}
use ops_class.Sfs.Io.Laws.{SameFs, SameBlocks, writeblock_lem}
use ops_class.Sfs.Balloc.Laws.{Ready-SameFs}
use ops_class.Sfs.Bmap.{ndirect, dbperidb, set_indirect}
use ops_class.Sfs.Bmap.Map.{slot, Sane}
use ops_class.Sfs.Itrunc.{Slots, unlocked_on_error, put_index}
use ops_class.Sfs.Itrunc.Freed.{Freed-start, Freed-free}
use ops_class.Sfs.Itrunc.Direct.{Dropped}
use ops_class.Sfs.Itrunc.Sweep.{Swept}
use ops_class.Sfs.Itrunc.Pointers.{far_at}
use ops_class.Sfs.Itrunc.Cut.{Mid, Torn}
use ops_class.Sfs.Itrunc.Stages.{locked}
use ops_class.Sfs.Itrunc.Index.{slot_some, index_still, through_index}
use ops_class.Sfs.Itrunc.Lock.{Holds, with_lock, unlocked_fail, unlocked_Torn}

slot_zero : (c : ℕ → List ℕ) (i : ℕ) → slot c 0 i ≡ 0
unfolding slot
slot_zero c i = refl

module _ {D : Type 0} {dev : Device D} {contents : D → Contents} {size : ℕ}
    (disk : IsDisk dev contents size) {f : File D} (sane : Sane contents size f)
    (holds : Holds f.fs) (blocklen : ℕ) (some_ : f.sv.indirect ≢ 0) (f2 : File D)
    (dr : Dropped size (locked f) blocklen ndirect f2) (s : Sfs D) (same : SameFs f2.fs s)
    (blocks : SameBlocks contents f2.fs s) (f4 : File D) (acc : Slots)
    (sw : Swept size
      (record f2 { fs = s })
      blocklen
      (words dbperidb (contents f.fs.device f.sv.indirect))
      dbperidb
      f4
      acc) where
  abbrev pub AfterIndex : Run (File D) (Unit {0}) → Type 0
  AfterIndex = Ensures (λ _ f5. Mid contents size blocklen f f5) (Torn contents size blocklen f)

  indirect_now : f4.sv.indirect ≡ f.sv.indirect
  indirect_now = ap (λ v. v.indirect) sw.inode ∙ dr.indirect

  inside : f.sv.indirect < f4.fs.nblocks
  inside =
      subst (λ n. f.sv.indirect < n) (sym (sw.freed.nblocks ∙ same.nblocks ∙ dr.freed.nblocks))
        (sane.index some_).0

  device_now : (b : ℕ) → contents f4.fs.device b ≡ contents f.fs.device b
  device_now b =
      ap (λ d. contents d b) sw.freed.device ∙ blocks b ∙ ap (λ d. contents d b) dr.freed.device

  still : isset f4.fs.freemap f.sv.indirect ≡ true
  still = index_still sane blocklen some_ f2 dr s same blocks f4 acc sw

  -- No slot is left.
  put_none : acc.hasnonzero ≡ false → AfterIndex (put_index dev f.sv.indirect acc f4)
  unfolding put_index set_indirect
  put_none none_ =
      let (s5, run, fr) =
        Freed-free size (λ _. f.sv.indirect) (λ _. true) f4.fs
          (Freed-start size _ _ _ sw.freed.ready) refl some_ inside still
          (λ k h. absurd (omega arith)) in
      rw (none_, run)
        (returns (
          through_index sane blocklen some_ f2 dr s same blocks f4 acc sw _ fr.ready fr.biglock
            fr.curthread fr.nblocks (ap (λ v. v.direct) sw.inode) (ap (λ v. v.size) sw.inode)
            (λ b ne. fr.kept b (λ k h p ne' e. ne (sym e)))
            (λ b ne. ap (λ d. contents d b) fr.device)
            (λ j h. slot_zero (contents s5.device) j ∙ sym (sw.none_left none_ j h))
            (inr
              (refl, fr.gone 0 (omega arith) refl some_, λ j h. slot_zero (contents s5.device) j))))

  -- The words of the buffer.
  idbuf_words : AreWords acc.idbuf
  idbuf_words k = ground (
    arith,
    sw.now k,
    words-AreWords dbperidb (contents f.fs.device f.sv.indirect)
        (disk.blocks f.fs.device f.sv.indirect).bytes k,
  )

  idbuf_length : length acc.idbuf ≡ dbperidb
  idbuf_length = sw.sized ∙ length-words dbperidb _

  idbuf-IsBlock : IsBlock (bytes_of acc.idbuf)
  idbuf-IsBlock = record {
    sized = omega (arith, length-bytes_of acc.idbuf, idbuf_length);
    bytes = bytes_of-lt acc.idbuf;
  }

  outcome_kept :
      (f5 : File D)
      → f5.sv.indirect ≡ f4.sv.indirect
      → isset f5.fs.freemap f.sv.indirect ≡ isset f4.fs.freemap f.sv.indirect
      → (f5.sv.indirect ≡ f.sv.indirect)
        × (isset f5.fs.freemap f.sv.indirect ≡ isset f.fs.freemap f.sv.indirect)
  outcome_kept f5 e used = (e ∙ indirect_now, used ∙ still ∙ sym (sane.index some_).1)

  -- The slots that are left are written back.
  put_dirty :
      acc.hasnonzero ≡ true → acc.iddirty ≡ true → AfterIndex (put_index dev f.sv.indirect acc f4)
  unfolding put_index unlocked_on_error
  put_dirty left changed =
      rw (left, changed)
        (go _ (
          writeblock_lem disk f.sv.indirect (bytes_of acc.idbuf) f4.fs
            (omega (arith, inside, sw.freed.ready.on_disk)) idbuf-IsBlock sw.freed.ready.held))
    where
      written_far :
          (s5 : Sfs D)
          → contents s5.device f.sv.indirect ≡ bytes_of acc.idbuf
          → (j : ℕ) → far_at contents (record f4 { fs = s5 }) j ≡ get_or acc.idbuf j 0
      written_far s5 wrote j =
          ap (λ b. slot (contents s5.device) b j) indirect_now
          ∙ slot_some (contents s5.device) f.sv.indirect j some_
          ∙ ap (λ bytes. get_or (words dbperidb bytes) j 0) wrote
          ∙ ap (λ ws. get_or ws j 0)
              (subst (λ n. words n (bytes_of acc.idbuf) ≡ acc.idbuf) idbuf_length
                (words-bytes_of acc.idbuf idbuf_words))

      go :
          (r : Run (Sfs D) (Unit {0}))
          → Ensures
              (λ _ s'.
                SameFs f4.fs s'
                × ((k : ℕ)
                    → contents s'.device k ≡ (
                        if f.sv.indirect == k
                        then bytes_of acc.idbuf
                        else contents f4.fs.device k)))
              (λ e s'.
                (e ≡ Run.eio)
                × SameFs f4.fs s'
                × ((k : ℕ) → f.sv.indirect ≢ k → contents s'.device k ≡ contents f4.fs.device k))
              r
          → AfterIndex (unlocked_on_error (in_file f4 r))
      go _ (returns {s = s5} (sf, wrote)) = returns (
          through_index sane blocklen some_ f2 dr s same blocks f4 acc sw _
            (Ready-SameFs sf sw.freed.ready) sf.biglock sf.curthread sf.nblocks
            (ap (λ v. v.direct) sw.inode) (ap (λ v. v.size) sw.inode)
            (λ b ne. ap (λ m. isset m b) sf.freemap) (λ b ne. wrote b ∙ ground (arith, ne))
            (λ j h. written_far s5 (wrote f.sv.indirect ∙ ground arith) j)
            (inl (
              outcome_kept (record f4 { fs = s5 }) refl
                (ap (λ m. isset m f.sv.indirect) sf.freemap))))
      go _ (fails {e = e} {s = s5} (bad, sf, kept)) =
          let big = sf.biglock ∙ sw.freed.biglock ∙ same.biglock ∙ dr.freed.biglock in
          let g : File D = record f4 { fs = s5 } in
          let lock = ap (λ b. b.lock) big in
          let depth = ap (λ b. b.depth) big in
          let thread = sf.curthread ∙ sw.freed.curthread ∙ same.curthread ∙ dr.freed.curthread in
          subst AfterIndex (sym (unlocked_fail f holds g lock depth thread e)) (
            fails (
              subst (λ e'. Torn contents size blocklen f e' (with_lock f.fs.biglock g)) (sym bad)
                (unlocked_Torn f holds g lock depth thread (Ready-SameFs sf sw.freed.ready)
                  (ap (λ v. v.size) sw.inode ∙ dr.same_size) indirect_now
                  (λ k. ap (λ v. get_or v.direct k 0) sw.inode ∙ dr.now k))))

  -- Nothing has to be written.
  put_clean :
      acc.hasnonzero ≡ true → acc.iddirty ≡ false → AfterIndex (put_index dev f.sv.indirect acc f4)
  unfolding put_index
  put_clean left clean =
      rw (left, clean)
        (returns (
          through_index sane blocklen some_ f2 dr s same blocks f4 acc sw f4 sw.freed.ready refl
            refl refl (ap (λ v. v.direct) sw.inode) (ap (λ v. v.size) sw.inode) (λ b ne. refl)
            (λ b ne. refl)
            (λ j h.
              ap (λ b. slot (contents f4.fs.device) b j) indirect_now
              ∙ slot_some (contents f4.fs.device) f.sv.indirect j some_
              ∙ ap (λ bytes. get_or (words dbperidb bytes) j 0) (device_now f.sv.indirect)
              ∙ sym (sw.clean clean j))
            (inl (outcome_kept f4 refl refl))))

  pub put_index_lem : AfterIndex (put_index dev f.sv.indirect acc f4)
  put_index_lem = elim (Bool-cases acc.hasnonzero) [
    | inl left ↦ elim (Bool-cases acc.iddirty) [
      | inl changed ↦ put_dirty left changed
      | inr clean ↦ put_clean left clean
    ]
    | inr none_ ↦ put_none none_
  ]
