-- ===== src/Sfs/Metaio/Write.antt =====
-- Writing metadata.
use ops_class.Base.{
  ℕ, ◌+◌, ◌-◌, ◌/◌, ◌%◌, ◌^◌, ◌<◌, ◌≤◌, ◌≡◌, ◌≢◌, refl, sym, ◌∙◌, ap, ap₂, subst, true, false,
  Bool-cases, ◌&&◌, ◌==◌, ltb, leb, ==→eq, ==→ne, ne→==, arith, get_or, if◌then◌else◌, ℕ_discrete,
  inl, inr, List, length, dec_lt,
}
use ops_class.Base.Run.{done, Ensures, returns, bind, ◌>>◌}
use ops_class.Bitmap.{isset}
use ops_class.Sfs.Device.{Device, Contents, IsDisk, IsBlock, block_size}
use ops_class.Sfs.State.{Sfs, File, bind_fs}
use ops_class.Sfs.Io.Laws.{SameFs, SameFs-trans, readblock_lem, writeblock_lem}
use ops_class.Sfs.Balloc.Laws.{Ready-SameFs}
use ops_class.Sfs.Bmap.Map.{nmapped, block_of, Sane}
use ops_class.Sfs.Bmap.Frame.{mapped_beyond, mapped-same, Sane-same}
use ops_class.Sfs.Bmap.Outcome.{Got}
use ops_class.Sfs.Bmap.Laws.{bmap-Got}
use ops_class.Sfs.Metaio.{uio_write, paste, extend, meta_block, metaio}
use ops_class.Sfs.Metaio.Bytes.{byte_in, byte_at, byte_in-same, Got-bytes}
use ops_class.Sfs.Metaio.Paste.{length-paste, get_or-paste}
use ops_class.Sfs.Metaio.Outcome.{MetaFailed, MetaWritten, Failed-bmap}
use ops_class.Sfs.Metaio.Mapped.{on_disk, block_bytes}

module _ {D : Type 0} {dev : Device D} {contents : D → Contents} {size : ℕ}
    (disk : IsDisk dev contents size) {f : File D} (sane : Sane contents size f) (actualpos : ℕ)
    (bytes : List ℕ) (aligned : actualpos % block_size + length bytes ≤ block_size)
    (small_bytes : (i : ℕ) → get_or bytes i 0 < 256) where
  abbrev fb : ℕ
  fb = actualpos / block_size

  abbrev off : ℕ
  off = actualpos % block_size

  module _ (block : ℕ) (f1 : File D) (got : Got contents size f fb true block f1) where
    block_some : block ≢ 0
    block_some z = elim (Bool-cases (block_of contents f fb == 0)) [
      | inl none_ ↦ (got.fresh refl (==→eq _ 0 none_)).0 z
      | inr some_ ↦
          let ne = ==→ne (block_of contents f fb) 0 some_ in ne (sym (got.kept (inr ne)) ∙ z)
    ]

    here_some : block_of contents f1 fb ≢ 0
    here_some z = block_some (sym got.here ∙ z)

    not_index : block ≢ f1.sv.indirect
    not_index e = got.sane.apart_index fb here_some (got.here ∙ e)

    abbrev new_block : List ℕ → List ℕ
    new_block buf = paste off bytes buf

    module _ (buf : List ℕ) (full : length buf ≡ block_size) where
      new_bytes :
          (i : ℕ)
          → get_or (new_block buf) i 0 ≡ (
              if leb off i && ltb i (off + length bytes)
              then get_or bytes (i - off) 0
              else get_or buf i 0)
      new_bytes i = get_or-paste off bytes buf i (omega arith)

      new-IsBlock : ((i : ℕ) → get_or buf i 0 < 256) → IsBlock (new_block buf)
      new-IsBlock small = record {
        sized = sized;
        bytes = λ i. ground (arith, new_bytes i, small i, small_bytes (i - off));
      }
        where
          sized : length (new_block buf) ≡ block_size
          sized = (length-paste off bytes buf ∙ full)

    -- The block of the file has been written.
    module _ (buf : List ℕ) (was : buf ≡ contents f1.fs.device block) (f3 : File D)
        (same : SameFs f1.fs f3.fs) (direct : f3.sv.direct ≡ f1.sv.direct)
        (index : f3.sv.indirect ≡ f1.sv.indirect)
        (wrote : (k : ℕ)
          → contents f3.fs.device k
            ≡ (if block == k then new_block buf else contents f1.fs.device k)) where
      map_after : (k : ℕ) → block_of contents f3 k ≡ block_of contents f1 k
      map_after k =
          mapped-same (contents f1.fs.device) (contents f3.fs.device) f1.sv f3.sv k index
            (λ h. ap (λ l. get_or l k 0) direct)
            (λ ne. wrote f1.sv.indirect ∙ ground (arith, not_index))

      Sane-after : Sane contents size f3
      Sane-after =
          Sane-same f1 f3 got.sane (Ready-SameFs same got.sane.ready)
            (ap length direct ∙ got.sane.directs) same.nblocks
            (λ j h. ap (λ m. isset m j) same.freemap ∙ h) index map_after

      elsewhere : (k i : ℕ) → k ≢ fb → byte_in contents f3 k i ≡ byte_in contents f k i
      elsewhere k i ne =
          byte_in-same contents f1 f3 k i (map_after k) (λ some_.
            wrote (block_of contents f1 k)
            ∙ ground (
              arith,
              λ (e : block ≡ block_of contents f1 k).
                  ne (got.sane.apart k fb some_ (sym e ∙ sym got.here)),
            ))
          ∙ Got-bytes sane fb true block f1 got k i

      inside : (i : ℕ) → byte_in contents f3 fb i ≡ get_or (new_block buf) i 0
      unfolding byte_in
      inside i =
          rw (map_after fb, got.here, ne→== block 0 block_some)
            (ap (λ b. get_or b i 0) (wrote block ∙ ground arith))

      before : (i : ℕ) → get_or buf i 0 ≡ byte_in contents f fb i
      before i =
          ap (λ b. get_or b i 0) was ∙ block_bytes disk sane fb true block f1 got i block_some

      buf_full : length buf ≡ block_size
      buf_full = ap length was ∙ (disk.blocks f1.fs.device block).sized

      now_after :
          (p : ℕ)
          → byte_at contents f3 p ≡ (
              if leb actualpos p && ltb p (actualpos + length bytes)
              then get_or bytes (p - actualpos) 0
              else byte_at contents f p)
      unfolding byte_at byte_in
      now_after p = elim (ℕ_discrete (p / block_size) fb) [
        | yes e ↦
            let there : byte_at contents f3 p ≡ (
                if leb off (p % block_size) && ltb (p % block_size) (off + length bytes)
                then get_or bytes (p % block_size - off) 0
                else get_or buf (p % block_size) 0) =
              ap (λ k. byte_in contents f3 k (p % block_size)) e
              ∙ inside (p % block_size)
              ∙ new_bytes buf buf_full (p % block_size) in
            let old : get_or buf (p % block_size) 0 ≡ byte_at contents f p =
              before (p % block_size) ∙ ap (λ k. byte_in contents f k (p % block_size)) (sym e) in
            let low : leb off (p % block_size) ≡ leb actualpos p = ground (arith, e) in
            let high : ltb (p % block_size) (off + length bytes)
                ≡ ltb p (actualpos + length bytes) =
              ground (arith, e) in
            let same_place : p % block_size - off ≡ p - actualpos = omega (arith, e) in
            subst (λ b. byte_at contents f3 p ≡ b)
              (ap₂ (λ c d. if c then get_or bytes d 0 else get_or buf (p % block_size) 0)
                  (ap₂ ◌&&◌ low high) same_place
                ∙ ap
                    (λ d.
                      if leb actualpos p && ltb p (actualpos + length bytes)
                      then get_or bytes (p - actualpos) 0
                      else d)
                    old)
              there
        | no ne ↦
            let outside : (leb actualpos p && ltb p (actualpos + length bytes)) ≡ false =
              ground (arith, ne) in
            rw outside (elsewhere (p / block_size) (p % block_size) ne)
      ]

    -- A block that the file has is not past the last one.
    no_wrap : (actualpos + length bytes) % 2 ^ 32 ≡ actualpos + length bytes
    no_wrap = elim (dec_lt fb nmapped) [
      | yes near ↦ omega (arith, near, aligned)
      | no far ↦
          absurd (
            block_some
              (sym got.here ∙ mapped_beyond (contents f1.fs.device) f1.sv fb (omega arith)))
    ]

    grown_size : ℕ
    grown_size =
        if ltb f1.sv.size (actualpos + length bytes) then actualpos + length bytes else f1.sv.size

    -- The last lines.
    written_back :
        (buf : List ℕ)
        → buf ≡ contents f1.fs.device block
        → (s : Sfs D) → SameFs f1.fs s
        → ((k : ℕ)
            → contents s.device k ≡ (if block == k then new_block buf else contents f1.fs.device k))
        → Ensures
            (λ _ f'. MetaWritten contents size f actualpos bytes f')
            (MetaFailed contents size f)
            ((extend (actualpos + length bytes) >> done bytes) (record f1 { fs = s }))
    unfolding extend
    written_back buf was s same wrote =
        elim (Bool-cases (ltb f1.sv.size (actualpos + length bytes))) [
          | inl longer ↦
              rw (longer, no_wrap)
                (returns (record {
                  sane =
                      Sane-after buf was
                        (record {
                          fs = s;
                          sv = record (f1.sv) { size = actualpos + length bytes; dirty = true };
                        })
                        same refl refl wrote;
                  now =
                      now_after buf was
                        (record {
                          fs = s;
                          sv = record (f1.sv) { size = actualpos + length bytes; dirty = true };
                        })
                        same refl refl wrote;
                  now_size = ground (arith, longer, got.grown.length_);
                }))
          | inr within ↦ rw within (
              returns (record {
                sane = Sane-after buf was (record f1 { fs = s }) same refl refl wrote;
                now = now_after buf was (record f1 { fs = s }) same refl refl wrote;
                now_size = ground (arith, within, got.grown.length_);
              }))
        ]

    write_block :
        Ensures
          (λ _ f'. MetaWritten contents size f actualpos bytes f')
          (MetaFailed contents size f)
          (meta_block dev actualpos bytes uio_write block f1)
    unfolding meta_block
    write_block =
        let b = on_disk disk sane fb true block f1 got block_some in
        rw (ne→== block 0 block_some) (
          bind_fs f1 _ (readblock_lem disk block f1.fs b got.sane.ready.held)
            (λ buf s (e, same, blocks).
              bind_fs (record f1 { fs = s }) _
                (writeblock_lem disk block (new_block buf) s b
                  (new-IsBlock buf (ap length e ∙ (disk.blocks f1.fs.device block).sized) (λ i.
                    ground
                      (arith, ap (λ l. get_or l i 0) e, (disk.blocks f1.fs.device block).bytes i)))
                  (Ready-SameFs same got.sane.ready).held)
                (λ _ s' (same', wrote).
                  written_back buf e s' (SameFs-trans same same')
                    (λ k. wrote k ∙ ap (λ c. if block == k then new_block buf else c) (blocks k)))
                (λ e' s' (bad, same', kept). record {
                  why = inl bad;
                  ready = Ready-SameFs same' (Ready-SameFs same got.sane.ready);
                  same_size = got.grown.length_;
                }))
            (λ e s (bad, same, blocks). record {
              why = inl bad;
              ready = Ready-SameFs same got.sane.ready;
              same_size = got.grown.length_;
            }))

  -- On a sane file of a disk, for a piece of a block, writing with `sfs_metaio` puts the bytes in
  -- their place and changes no other byte of the file, which stays sane; its size grows just to the
  -- end of the piece if that was past it. Or it fails with EIO, ENOSPC or EFBIG, the size unchanged.
  -- It neither panics nor waits.
  pub metaio-Written :
      actualpos / block_size < 2 ^ 32
      → Ensures
          (λ _ f'. MetaWritten contents size f actualpos bytes f')
          (MetaFailed contents size f)
          (metaio dev actualpos bytes uio_write f)
  unfolding metaio
  metaio-Written small =
      let e : actualpos / block_size % 2 ^ 32 ≡ actualpos / block_size = omega arith in
      rw (sane.ready.held, e)
        (bind (bmap-Got disk sane fb true) (λ block f1 got. write_block block f1 got)
          (λ e f1 failed. Failed-bmap sane failed))
