-- ===== src/Sfs/Itrunc/Lock.antt =====
-- The big lock around `sfs_itrunc`, whose caller holds it already.
use ops_class.Base.{
  ℕ, ◌+◌, ◌-◌, ◌<◌, ◌≡◌, refl, ◌∙◌, true, arith, ap, ◌^◌, lt→ltb, ne→==, leb, if◌then◌else◌, ltb,
  ◌&&◌,
}
use ops_class.Base.Run.{Run, done, fail, panicked, blocked, eio, Errno, value, panic}
use ops_class.Vfs.BigLock
use ops_class.Vfs.BigLock.{BigLock, Entry, entered, waits, entry_panic}
use ops_class.Base.Run.{Checked}
use ops_class.Sfs.Device.{Contents}
use ops_class.Sfs.State.{Sfs, File}
use ops_class.Sfs.Balloc.Laws.{Ready}
use ops_class.Sfs.Bmap.{ndirect}
use ops_class.Sfs.Itrunc.{lock_big, unlock_big, unlocked_on_error}
use ops_class.Sfs.Itrunc.Pointers.{near_at, near_block}
use ops_class.Sfs.Itrunc.Cut.{Torn}
use ops_class.Sfs.Itrunc.Stages.{locked}

-- The current thread holds the big lock, and can take it once more.
pub record Holds {D : Type 0} (s : Sfs D) : Type 0 where
  pub held : BigLock.do_i_hold s.biglock s.curthread ≡ true
  pub positive : 0 < s.biglock.depth
  pub room : s.biglock.depth + 1 < 2 ^ 32

abbrev pub with_lock : {D : Type 0} → BigLock → File D → File D
with_lock big g = record g { fs = record (g.fs) { biglock = big } }

module _ {D : Type 0} (f : File D) (holds : Holds f.fs) where
  acquire_lem :
      BigLock.acquire f.fs.biglock f.fs.curthread
      ≡ entered (record (f.fs.biglock) { depth = f.fs.biglock.depth + 1 })
  unfolding BigLock.acquire
  acquire_lem =
      rw holds.held
        (ap (λ d. entered (record (f.fs.biglock) { depth = d })) (omega (arith, holds.room)))

  pub lock_big_lem : lock_big f ≡ done tt (locked f)
  unfolding lock_big
  lock_big_lem =
      ap {A = Entry} {B = Run (File D) (Unit {0})}
        (λ r. elim r [
          | entered big ↦ done tt (with_lock big f)
          | waits ↦ blocked
          | entry_panic ↦ panicked
        ])
        acquire_lem

  module _ (g : File D) (lock : g.fs.biglock.lock ≡ f.fs.biglock.lock)
      (depth : g.fs.biglock.depth ≡ f.fs.biglock.depth + 1)
      (thread : g.fs.curthread ≡ f.fs.curthread) where
    held_after : BigLock.do_i_hold g.fs.biglock g.fs.curthread ≡ true
    unfolding BigLock.do_i_hold
    held_after = rw (lock, thread) holds.held

    release_lem : BigLock.release g.fs.biglock g.fs.curthread ≡ value f.fs.biglock
    unfolding BigLock.release
    release_lem =
        rw
          (
            held_after,
            lt→ltb 0 g.fs.biglock.depth (omega arith),
            ne→== (g.fs.biglock.depth - 1) 0 (λ z. omega (arith, holds.positive)),
          )
          (ap value same)
      where
        same : record (g.fs.biglock) { depth = g.fs.biglock.depth - 1 } ≡ f.fs.biglock
        same = ground (arith, lock, depth)

    pub unlock_big_lem : unlock_big g ≡ done tt (with_lock f.fs.biglock g)
    unfolding unlock_big
    unlock_big_lem =
        ap {A = Checked BigLock} {B = Run (File D) (Unit {0})}
          (λ r. elim r [ value big ↦ done tt (with_lock big g) | panic ↦ panicked ]) release_lem

    -- An error on the way out.
    pub unlocked_fail :
        {A : Type 0} (e : Errno)
        → unlocked_on_error {A = A} (fail e g) ≡ fail e (with_lock f.fs.biglock g)
    unfolding unlocked_on_error
    unlocked_fail e = rw unlock_big_lem refl

    pub unlocked_Ready : {size : ℕ} → Ready size g.fs → Ready size (with_lock f.fs.biglock g).fs
    unlocked_Ready r = record {
      held = rw thread holds.held;
      map_valid = r.map_valid;
      span = r.span;
      on_disk = r.on_disk;
      tail = r.tail;
      super = r.super;
    }

    pub unlocked_Torn :
        {contents : D → Contents} {size blocklen : ℕ}
        → Ready size g.fs
        → g.sv.size ≡ f.sv.size
        → g.sv.indirect ≡ f.sv.indirect
        → ((k : ℕ)
            → near_at contents g k
              ≡ (if ltb k ndirect && leb blocklen k then 0 else near_at contents f k))
        → Torn contents size blocklen f eio (with_lock f.fs.biglock g)
    unlocked_Torn {contents} {size} {blocklen} ready size_ index near = record {
      why = refl;
      ready = unlocked_Ready ready;
      biglock = refl;
      same_size = size_;
      same_index = index;
      near = λ k h.
          near_block contents (with_lock f.fs.biglock g) k h
          ∙ ground (arith, near k, near_block contents f k h);
    }
