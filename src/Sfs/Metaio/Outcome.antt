-- ===== src/Sfs/Metaio/Outcome.antt =====
-- What a call of `sfs_metaio` comes to.
use ops_class.Base.{
  ℕ, ◌+◌, ◌-◌, ◌<◌, ◌≡◌, refl, sym, ap, subst, ◌&&◌, ltb, leb, get_or, if◌then◌else◌, inl, inr,
  List, ◌⊎◌, length,
}
use ops_class.Base.Run.{Errno, eio, enospc, efbig}
use ops_class.Sfs.Device.{Contents}
use ops_class.Sfs.State.{File}
use ops_class.Sfs.Balloc.Laws.{Ready}
use ops_class.Sfs.Bmap.Map.{Sane}
use ops_class.Sfs.Bmap.Outcome.{Failed, too_big, untouched, spoilt}
use ops_class.Sfs.Metaio.Bytes.{byte_in, byte_at}

module _ {D : Type 0} (contents : D → Contents) (size : ℕ) (f : File D) where
  -- Every byte of the file is as it was.
  pub record Unchanged (f' : File D) : Type 0 where
    pub sane : Sane contents size f'
    pub bytes : (k i : ℕ) → byte_in contents f' k i ≡ byte_in contents f k i
    pub same_size : f'.sv.size ≡ f.sv.size

  pub record MetaRead (actualpos : ℕ) (len : ℕ) (bytes : List ℕ) (f' : File D) : Type 0 where
    pub unchanged : Unchanged f'
    pub sized : length bytes ≡ len
    pub got : (i : ℕ) → i < len → get_or bytes i 0 ≡ byte_at contents f (actualpos + i)

  pub record MetaFailed (e : Errno) (f' : File D) : Type 0 where
    pub why : (e ≡ eio) ⊎ (e ≡ enospc) ⊎ (e ≡ efbig)
    pub ready : Ready size f'.fs
    pub same_size : f'.sv.size ≡ f.sv.size

  pub record MetaWritten (actualpos : ℕ) (bytes : List ℕ) (f' : File D) : Type 0 where
    pub sane : Sane contents size f'
    pub now :
        (p : ℕ)
        → byte_at contents f' p ≡ (
            if leb actualpos p && ltb p (actualpos + length bytes)
            then get_or bytes (p - actualpos) 0
            else byte_at contents f p)
    pub now_size :
        f'.sv.size
        ≡ (if ltb f.sv.size (actualpos + length bytes) then actualpos + length bytes else f.sv.size)

module _ {D : Type 0} {contents : D → Contents} {size : ℕ} {f : File D} where
  pub Failed-bmap :
      {fb : ℕ} {e : Errno} {f' : File D}
      → Sane contents size f
      → Failed contents size f fb e f'
      → MetaFailed contents size f e f'
  Failed-bmap sane (too_big h same) = record {
    why = inr (inr refl);
    ready = subst (λ g. Ready size g.fs) (sym same) sane.ready;
    same_size = ap (λ g. g.sv.size) same;
  }
  Failed-bmap sane (untouched (inl full) sane' grown same) = record {
    why = inr (inl full);
    ready = sane'.ready;
    same_size = grown.length_;
  }
  Failed-bmap sane (untouched (inr bad) sane' grown same) = record {
    why = inl bad;
    ready = sane'.ready;
    same_size = grown.length_;
  }
  Failed-bmap sane (spoilt ready grown same) = record {
    why = inl refl;
    ready = ready;
    same_size = grown.length_;
  }
