-- ===== src/Sfs/Itrunc/Laws.antt =====
-- The contract of `sfs_itrunc`.
use ops_class.Base.{
  ℕ, ◌+◌, ◌-◌, ◌<◌, ◌≡◌, ◌≢◌, refl, sym, ◌∙◌, false, ◌&&◌, not, ◌==◌, arith, inl, inr, Bool-cases,
  ap, subst, ltb, List,
}
use ops_class.Base.Run
use ops_class.Base.Run.{Run, done, Ensures, returns, fails, bind, and_then, ◌>>=◌}
use ops_class.Sfs.Device.{Device, Contents, IsDisk}
use ops_class.Sfs.Words.{words}
use ops_class.Sfs.State.{Sfs, File, in_file}
use ops_class.Sfs.Io.Laws.{SameFs, SameBlocks, readblock_lem}
use ops_class.Sfs.Balloc.Laws.{Ready-SameFs}
use ops_class.Sfs.Bmap.{ndirect, dbperidb}
use ops_class.Sfs.Bmap.Map.{Sane}
use ops_class.Sfs.Itrunc.{
  blocks_for, unlocked_on_error, look_index, drop_indirect, itrunc, drop_slots, put_index,
}
use ops_class.Sfs.Itrunc.Direct.{Dropped}
use ops_class.Sfs.Itrunc.Cut.{Cut, Torn, Mid}
use ops_class.Sfs.Itrunc.Stages.{locked, after_direct, direct_only}
use ops_class.Sfs.Itrunc.Index.{after_slots}
use ops_class.Sfs.Itrunc.Lock.{Holds, with_lock, lock_big_lem, unlocked_fail, unlocked_Torn}
use ops_class.Sfs.Itrunc.Put.{put_index_lem}
use ops_class.Sfs.Itrunc.Finish.{set_size_lem, finished-Cut}

module _ {D : Type 0} {dev : Device D} {contents : D → Contents} {size : ℕ}
    (disk : IsDisk dev contents size) {f : File D} (sane : Sane contents size f)
    (holds : Holds f.fs) where
  module _ (blocklen : ℕ) (f2 : File D) (dr : Dropped size (locked f) blocklen ndirect f2) where
    abbrev Indirect : Run (File D) (Unit {0}) → Type 0
    Indirect = Ensures (λ _ f5. Mid contents size blocklen f f5) (Torn contents size blocklen f)

    module _ (some_ : f.sv.indirect ≢ 0) where
      after_read :
          {r : Run (Sfs D) (List ℕ)}
          → Ensures
              (λ bytes s'.
                (bytes ≡ contents f2.fs.device f.sv.indirect)
                × SameFs f2.fs s'
                × SameBlocks contents f2.fs s')
              (λ e s'. (e ≡ Run.eio) × SameFs f2.fs s' × SameBlocks contents f2.fs s')
              r
          → Indirect (
              and_then (unlocked_on_error (in_file f2 r)) (λ bytes.
                drop_slots dbperidb 0 blocklen
                  (record { idbuf = words dbperidb bytes; hasnonzero = false; iddirty = false })
                >>= λ acc. put_index dev f.sv.indirect acc))
      unfolding unlocked_on_error
      after_read (returns {a = bytes} {s = s} (e, same, blocks)) =
          let (f4, acc, run, sw) = after_slots sane blocklen some_ f2 dr s same blocks in
          let load : words dbperidb bytes ≡ words dbperidb (contents f.fs.device f.sv.indirect) =
            ap (words dbperidb) (e ∙ ap (λ d. contents d f.sv.indirect) dr.freed.device) in
          rw (load, run)
            (put_index_lem disk sane holds blocklen some_ f2 dr s same blocks f4 acc sw)
      after_read (fails {e = e} {s = s} (bad, same, blocks)) =
          let big = same.biglock ∙ dr.freed.biglock in
          let g : File D = record f2 { fs = s } in
          let lock = ap (λ b. b.lock) big in
          let depth = ap (λ b. b.depth) big in
          let thread = same.curthread ∙ dr.freed.curthread in
          subst
            (λ r. Indirect (
              and_then r (λ bytes.
                drop_slots dbperidb 0 blocklen
                  (record { idbuf = words dbperidb bytes; hasnonzero = false; iddirty = false })
                >>= λ acc. put_index dev f.sv.indirect acc)))
            (sym (unlocked_fail f holds g lock depth thread e))
            (fails (
              subst (λ e'. Torn contents size blocklen f e' (with_lock f.fs.biglock g)) (sym bad)
                (unlocked_Torn f holds g lock depth thread (Ready-SameFs same dr.freed.ready)
                  dr.same_size dr.indirect dr.now)))

    look_index_lem : Indirect (look_index dev f.sv.indirect blocklen f2)
    unfolding look_index
    look_index_lem =
        elim (Bool-cases (ltb blocklen (ndirect + dbperidb - 1) && not (f.sv.indirect == 0))) [
          | inl look ↦
              let some_ : f.sv.indirect ≢ 0 = ground (arith, look) in
              rw look (
                after_read some_ (
                  readblock_lem disk f.sv.indirect f2.fs
                    (subst (λ n. f.sv.indirect < n) refl
                      (omega (arith, (sane.index some_).0, sane.ready.on_disk)))
                    dr.freed.ready.held))
          | inr off ↦ rw off (returns (direct_only sane blocklen f2 dr off))
        ]

    drop_indirect_lem : Indirect (drop_indirect dev blocklen f2)
    unfolding drop_indirect
    drop_indirect_lem =
        subst (λ b. Indirect (look_index dev b blocklen f2)) (sym dr.indirect) look_index_lem

  -- On a sane file of a disk, whose caller holds the big lock and can take it once more,
  -- `sfs_itrunc` neither panics nor waits. If it returns 0, the file has the new size modulo 2^32 and
  -- is sane, the big lock is as it was, the direct blocks from the new length in blocks, modulo 2^32,
  -- on and the blocks of the indirect block past that length are no longer the file's and are free,
  -- the others are still the file's, no other block has been freed but perhaps the index block with
  -- all that it pointed to gone, and no other block than that one has been written. It fails only
  -- with EIO, with the big lock, the size and the index block's pointer as they were and the direct
  -- blocks dropped.
  pub itrunc-Cut :
      (len : ℕ)
      → Ensures
          (λ _ f'. Cut contents size (blocks_for len) f len f')
          (Torn contents size (blocks_for len) f)
          (itrunc dev len f)
  unfolding itrunc
  itrunc-Cut len =
      let (f2, run, dr) = after_direct sane (blocks_for len) in
      rw (lock_big_lem f holds, run)
        (bind (drop_indirect_lem (blocks_for len) f2 dr)
          (λ _ f5 mid.
            rw (set_size_lem sane holds (blocks_for len) f5 mid len)
              (returns (finished-Cut sane holds (blocks_for len) f5 mid len)))
          (λ e f5 torn. torn))
