-- ===== src/Sfs/Metaio/Mapped.antt =====
-- The file after `sfs_bmap`, and after a read of its block.
use ops_class.Base.{ℕ, ◌<◌, ◌≡◌, ◌≢◌, sym, ◌∙◌, ap, subst, Bool, arith, get_or}
use ops_class.Sfs.Device.{Device, Contents, IsDisk}
use ops_class.Sfs.State.{Sfs, File}
use ops_class.Sfs.Io.Laws.{SameFs, SameBlocks}
use ops_class.Sfs.Bmap.Map.{Sane}
use ops_class.Sfs.Bmap.Outcome.{Got}
use ops_class.Sfs.Bmap.Step.{Same-read}
use ops_class.Sfs.Metaio.Bytes.{byte_in, byte_in-same, Got-bytes}
use ops_class.Sfs.Metaio.Outcome.{Unchanged}

module _ {D : Type 0} {dev : Device D} {contents : D → Contents} {size : ℕ}
    (disk : IsDisk dev contents size) {f : File D} (sane : Sane contents size f) where
  module _ (fb : ℕ) (doalloc : Bool) (block : ℕ) (f1 : File D)
      (got : Got contents size f fb doalloc block f1) where
    pub got_Unchanged : Unchanged contents size f f1
    got_Unchanged = record {
      sane = got.sane;
      bytes = Got-bytes sane fb doalloc block f1 got;
      same_size = got.grown.length_;
    }

    module _ (s : Sfs D) (same : SameFs f1.fs s) (blocks : SameBlocks contents f1.fs s) where
      pub read_Unchanged : Unchanged contents size f (record f1 { fs = s })
      read_Unchanged =
          let step = Same-read f1 got.sane s same blocks in
          record {
            sane = step.sane;
            bytes = λ k i.
                byte_in-same contents f1 (record f1 { fs = s }) k i (step.map k) (λ ne. blocks _)
                ∙ Got-bytes sane fb doalloc block f1 got k i;
            same_size = got.grown.length_;
          }

    pub on_disk : block ≢ 0 → block < size
    on_disk ne =
        let used = got.sane.pointers fb (λ z. ne (sym got.here ∙ z)) in
        subst (λ b. b < size) got.here (omega (arith, used.0, got.sane.ready.on_disk))

    -- Block `fb` of the file, as it is read.
    pub block_bytes :
        (i : ℕ) → block ≢ 0 → get_or (contents f1.fs.device block) i 0 ≡ byte_in contents f fb i
    unfolding byte_in
    block_bytes i ne =
        sym (ground (arith, got.here, ne, ap (λ b. get_or (contents f1.fs.device b) i 0) got.here))
        ∙ Got-bytes sane fb doalloc block f1 got fb i

    pub hole_bytes : (i : ℕ) → block ≡ 0 → byte_in contents f fb i ≡ 0
    unfolding byte_in
    hole_bytes i none_ =
        sym (Got-bytes sane fb doalloc block f1 got fb i) ∙ ground (arith, got.here, none_)
