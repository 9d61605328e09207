-- ===== src/Sfs/Metaio/Read.antt =====
-- Reading metadata.
use ops_class.Base.{
  ℕ, ◌+◌, ◌/◌, ◌%◌, ◌^◌, ◌<◌, ◌≤◌, ◌≡◌, sym, ◌∙◌, ap, ap₂, false, Bool-cases, ◌==◌, ==→eq, ==→ne,
  arith, get_or, inl, inr, get_or-replicate, length-replicate, length-take, length-drop, List, take,
  drop, length,
}
use ops_class.Base.Run.{Ensures, returns, bind}
use ops_class.Sfs.Device.{Device, Contents, IsDisk, block_size}
use ops_class.Sfs.State.{File, bind_fs}
use ops_class.Sfs.Io.Laws.{readblock_lem}
use ops_class.Sfs.Balloc.Laws.{Ready-SameFs}
use ops_class.Sfs.Bmap.Map.{Sane}
use ops_class.Sfs.Bmap.Outcome.{Got}
use ops_class.Sfs.Bmap.Laws.{bmap-Got}
use ops_class.Sfs.Metaio.{uio_read, meta_block, metaio}
use ops_class.Sfs.Metaio.Bytes.{byte_in, byte_at}
use ops_class.Sfs.Metaio.Paste.{get_or-take, get_or-drop}
use ops_class.Sfs.Metaio.Outcome.{MetaRead, MetaFailed, Failed-bmap}
use ops_class.Sfs.Metaio.Mapped.{got_Unchanged, read_Unchanged, on_disk, block_bytes, hole_bytes}

module _ {D : Type 0} {dev : Device D} {contents : D → Contents} {size : ℕ}
    (disk : IsDisk dev contents size) {f : File D} (sane : Sane contents size f) (actualpos : ℕ)
    (bytes : List ℕ) (aligned : actualpos % block_size + length bytes ≤ block_size) where
  in_block :
      (i : ℕ)
      → i < length bytes
      → byte_at contents f (actualpos + i)
        ≡ byte_in contents f (actualpos / block_size) (actualpos % block_size + i)
  unfolding byte_at byte_in
  in_block i h =
      let e : (actualpos + i) / block_size ≡ actualpos / block_size = omega arith in
      let e' : (actualpos + i) % block_size ≡ actualpos % block_size + i = omega arith in
      ap₂ (λ k j. byte_in contents f k j) e e'

  module _ (block : ℕ) (f1 : File D)
      (got : Got contents size f (actualpos / block_size) false block f1) where
    read_block :
        Ensures
          (MetaRead contents size f actualpos (length bytes))
          (MetaFailed contents size f)
          (meta_block dev actualpos bytes uio_read block f1)
    unfolding meta_block
    read_block = elim (Bool-cases (block == 0)) [
      | inl none_ ↦ rw none_ (
          returns (record {
            unchanged = got_Unchanged disk sane (actualpos / block_size) false block f1 got;
            sized = length-replicate {A = ℕ} (length bytes) 0;
            got = λ i h.
                get_or-replicate {A = ℕ} (length bytes) i 0
                ∙ sym (
                    in_block i h
                    ∙ hole_bytes disk sane (actualpos / block_size) false block f1 got _
                        (==→eq block 0 none_));
          }))
      | inr some_ ↦
          let ne = ==→ne block 0 some_ in
          rw some_ (
            bind_fs f1 _
              (readblock_lem disk block f1.fs
                (on_disk disk sane (actualpos / block_size) false block f1 got ne)
                got.sane.ready.held)
              (λ buf s (e, same, blocks). returns (record {
                unchanged =
                    read_Unchanged disk sane (actualpos / block_size) false block f1 got s same
                      blocks;
                sized = piece_length buf e;
                got = λ i h.
                    get_or-take (length bytes) i (drop (actualpos % block_size) buf) h
                    ∙ get_or-drop (actualpos % block_size) i buf
                    ∙ ap (λ b. get_or b (actualpos % block_size + i) 0) e
                    ∙ block_bytes disk sane (actualpos / block_size) false block f1 got _ ne
                    ∙ sym (in_block i h);
              }))
              (λ e s (bad, same, blocks). record {
                why = inl bad;
                ready = Ready-SameFs same got.sane.ready;
                same_size = got.grown.length_;
              }))
    ]
      where
        piece_length :
            (buf : List ℕ)
            → buf ≡ contents f1.fs.device block
            → length (take (length bytes) (drop (actualpos % block_size) buf)) ≡ length bytes
        piece_length buf e = omega (
          arith,
          length-take (length bytes) (drop (actualpos % block_size) buf),
          length-drop (actualpos % block_size) buf,
          ap length e,
          (disk.blocks f1.fs.device block).sized,
        )

  -- On a sane file of a disk, for a piece of a block, reading with `sfs_metaio` hands back the
  -- bytes that the file has there, zeros where it has no block, and changes no byte of the file; or
  -- it fails with EIO, ENOSPC or EFBIG, the file's size unchanged. It neither panics nor waits.
  pub metaio-Read :
      actualpos / block_size < 2 ^ 32
      → Ensures
          (MetaRead contents size f actualpos (length bytes))
          (MetaFailed contents size f)
          (metaio dev actualpos bytes uio_read f)
  unfolding metaio
  metaio-Read small =
      let e : actualpos / block_size % 2 ^ 32 ≡ actualpos / block_size = omega arith in
      rw (sane.ready.held, e)
        (bind (bmap-Got disk sane (actualpos / block_size) false)
          (λ block f1 got. read_block block f1 got) (λ e f1 failed. Failed-bmap sane failed))
