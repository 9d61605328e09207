-- ===== src/Sfs/Io/Laws.antt =====
-- `sfs_rwblock` and the calls over it, on a device that is a disk.
use ops_class.Base.{
  ℕ, zero, suc, ◌*◌, ◌≤◌, ◌<◌, ◌≡◌, ◌≢◌, refl, ◌∙◌, ap, List, ◌==◌, if◌then◌else◌, arith, true,
  ==→ne, inl, inr, Bool-cases,
}
use ops_class.Base.Run.{
  Cmd, Run, done, fail, panicked, blocked, Errno, eio, einval, enosys, enomem, enoent, eexist,
  efault, enospc, efbig, enametoolong, enodev, Ensures, returns, fails,
}
use ops_class.Vfs.BigLock
use ops_class.Sfs.Device.{Device, Contents, IsDisk, IsBlock, ReadLaw, WriteLaw, block_size}
use ops_class.Sfs.State.{Sfs, on_device, in_fs}
use ops_class.Sfs.Io.{on_answer, attempts, rwblock, readblock, writeblock}

-- An error other than EIO and EINVAL is handed back.
answer_error :
    {D A : Type 0} (e : Errno) (d : D) (again : Cmd D A)
    → e ≢ eio
    → e ≢ einval
    → on_answer (fail e d) again ≡ fail e d
unfolding on_answer
answer_error enosys d again a b = refl
answer_error enomem d again a b = refl
answer_error enoent d again a b = refl
answer_error eexist d again a b = refl
answer_error efault d again a b = refl
answer_error enospc d again a b = refl
answer_error efbig d again a b = refl
answer_error enametoolong d again a b = refl
answer_error enodev d again a b = refl
answer_error eio d again a b = absurd (a refl)
answer_error einval d again a b = absurd (b refl)

answer_retry : {D A : Type 0} (d : D) (again : Cmd D A) → on_answer (fail eio d) again ≡ again d
unfolding on_answer
answer_retry d again = refl

-- `op` fails with EIO `k` times in a row, from the device state `d` to `d'`.
pub data Failing {D A : Type 0} (op : Cmd D A) : ℕ → D → D → Type 0 where
  here : {d : D} → Failing op zero d d
  again :
      {k : ℕ} {d d' d'' : D} → op d ≡ fail eio d' → Failing op k d' d'' → Failing op (suc k) d d''

module _ {D A : Type 0} (op : Cmd D A) where
  attempts_recover :
      (n : ℕ) {k : ℕ} {d d' d'' : D} {a : A}
      → Failing op k d d'
      → k ≤ n
      → op d' ≡ done a d''
      → attempts n op d ≡ done a d''
  unfolding attempts on_answer
  attempts_recover zero here h good = rw good
  attempts_recover (suc n) here h good = rw good
  attempts_recover zero (again bad f) h good = absurd (omega arith)
  attempts_recover (suc n) (again bad f) h good = rw bad (attempts_recover n f (omega arith) good)

  attempts_give_up :
      (n : ℕ) {k : ℕ} {d d' : D} → Failing op k d d' → k ≡ suc n → attempts n op d ≡ fail eio d'
  unfolding attempts on_answer
  attempts_give_up n here e = absurd (omega arith)
  attempts_give_up zero (again bad here) e = rw bad
  attempts_give_up zero (again bad (again worse f)) e = absurd (omega arith)
  attempts_give_up (suc n) (again bad f) e = rw bad (attempts_give_up n f (omega arith))

  attempts_error :
      (n : ℕ) {k : ℕ} {d d' d'' : D} (e : Errno)
      → Failing op k d d'
      → k ≤ n
      → op d' ≡ fail e d''
      → e ≢ eio
      → e ≢ einval
      → attempts n op d ≡ fail e d''
  unfolding attempts
  attempts_error zero e here h bad ne ni = rw bad (answer_error e _ _ ne ni)
  attempts_error (suc n) e here h bad ne ni = rw bad (answer_error e _ _ ne ni)
  attempts_error zero e (again worse f) h bad ne ni = absurd (omega arith)
  attempts_error (suc n) e (again worse f) h bad ne ni =
      ap (λ r. on_answer r (attempts n op)) worse
      ∙ answer_retry _ (attempts n op)
      ∙ attempts_error n e f (omega arith) bad ne ni

  attempts_panic :
      (n : ℕ) {k : ℕ} {d d' d'' : D}
      → Failing op k d d'
      → k ≤ n
      → op d' ≡ fail einval d''
      → attempts n op d ≡ panicked
  unfolding attempts on_answer
  attempts_panic zero here h bad = rw bad refl
  attempts_panic (suc n) here h bad = rw bad refl
  attempts_panic zero (again worse f) h bad = absurd (omega arith)
  attempts_panic (suc n) (again worse f) h bad = rw worse (attempts_panic n f (omega arith) bad)

  -- With the big lock held, after up to ten answers of EIO `sfs_rwblock` hands back what the device
  -- answers then if that is success or an error other than EIO and EINVAL, and panics if it is
  -- EINVAL; after eleven answers of EIO it fails with EIO.
  pub rwblock_retries :
      {s : Sfs D}
      → BigLock.do_i_hold s.biglock s.curthread ≡ true
      → ((k : ℕ) (d d' : D) (a : A)
          → Failing op k s.device d
          → k ≤ 10
          → op d ≡ done a d'
          → rwblock op s ≡ done a (record s { device = d' }))
        × ((k : ℕ) (d d' : D) (e : Errno)
            → Failing op k s.device d
            → k ≤ 10
            → op d ≡ fail e d'
            → e ≢ eio
            → e ≢ einval
            → rwblock op s ≡ fail e (record s { device = d' }))
        × ((k : ℕ) (d d' : D)
            → Failing op k s.device d
            → k ≤ 10
            → op d ≡ fail einval d'
            → rwblock op s ≡ panicked)
        × ((d : D) → Failing op 11 s.device d → rwblock op s ≡ fail eio (record s { device = d }))
  unfolding rwblock
  rwblock_retries held = (
    λ k d d' a f h good. rw (held, on_device, attempts_recover 10 f h good),
    λ k d d' e f h bad ne ni. rw (held, on_device, attempts_error 10 e f h bad ne ni),
    λ k d d' f h bad. rw (held, on_device, attempts_panic 10 f h bad),
    λ d f. rw (held, on_device, attempts_give_up 10 f refl),
  )

-- Nothing but the device's state differs.
pub record SameFs {D : Type 0} (s s' : Sfs D) : Type 0 where
  pub freemap : s'.freemap ≡ s.freemap
  pub freemapdirty : s'.freemapdirty ≡ s.freemapdirty
  pub nblocks : s'.nblocks ≡ s.nblocks
  pub biglock : s'.biglock ≡ s.biglock
  pub curthread : s'.curthread ≡ s.curthread

pub SameFs-trans : {D : Type 0} {s s' s'' : Sfs D} → SameFs s s' → SameFs s' s'' → SameFs s s''
SameFs-trans a b = record {
  freemap = b.freemap ∙ a.freemap;
  freemapdirty = b.freemapdirty ∙ a.freemapdirty;
  nblocks = b.nblocks ∙ a.nblocks;
  biglock = b.biglock ∙ a.biglock;
  curthread = b.curthread ∙ a.curthread;
}

abbrev pub SameBlocks : {D : Type 0} → (D → Contents) → Sfs D → Sfs D → Type 0
SameBlocks contents s s' = (k : ℕ) → contents s'.device k ≡ contents s.device k

same_fs : {D : Type 0} (s : Sfs D) (d : D) → SameFs s (record s { device = d })
same_fs s d = record {
  freemap = refl;
  freemapdirty = refl;
  nblocks = refl;
  biglock = refl;
  curthread = refl;
}

module _ {D : Type 0} {dev : Device D} {contents : D → Contents} {size : ℕ}
    (disk : IsDisk dev contents size) where
  read_after :
      (b : ℕ) (d d' : D) (r : Run D (List ℕ))
      → ((k : ℕ) → contents d' k ≡ contents d k)
      → ReadLaw contents b d' r
      → ReadLaw contents b d r
  read_after b d d' (done bytes d'') same law = (law.0 ∙ same b, λ k. law.1 k ∙ same k)
  read_after b d d' (fail e d'') same law = (law.0, λ k. law.1 k ∙ same k)
  read_after b d d' panicked same law = law
  read_after b d d' blocked same law = law

  write_after :
      (b : ℕ) (bytes : List ℕ) (d d' : D) (r : Run D (Unit {0}))
      → ((k : ℕ) → b ≢ k → contents d' k ≡ contents d k)
      → WriteLaw contents b bytes d' r
      → WriteLaw contents b bytes d r
  write_after b bytes d d' (done _ d'') same law = λ k. elim (Bool-cases (b == k)) [
    | inl at ↦ law k ∙ rw at
    | inr off ↦ law k ∙ rw off (same k (==→ne b k off))
  ]
  write_after b bytes d d' (fail e d'') same law = (law.0, λ k ne. law.1 k ne ∙ same k ne, law.2)
  write_after b bytes d d' panicked same law = law
  write_after b bytes d d' blocked same law = law

  answer_read :
      (b : ℕ) (d : D) (r : Run D (List ℕ)) (retry : Cmd D (List ℕ))
      → ReadLaw contents b d r
      → ((d' : D) → ReadLaw contents b d' (retry d'))
      → ReadLaw contents b d (on_answer r retry)
  unfolding on_answer
  answer_read b d (done bytes d') retry law next = law
  answer_read b d (fail e d') retry law next =
      rw law.0 (read_after b d d' (retry d') law.1 (next d'))
  answer_read b d panicked retry law next = law
  answer_read b d blocked retry law next = law

  attempts_read :
      (n b : ℕ)
      → b < size
      → (d : D) → ReadLaw contents b d (attempts n (dev.read (b * block_size)) d)
  unfolding attempts
  attempts_read zero b h d = answer_read b d _ _ (disk.reads b d h) (λ d'. (refl, λ k. refl))
  attempts_read (suc n) b h d = answer_read b d _ _ (disk.reads b d h) (attempts_read n b h)

  answer_write :
      (b : ℕ) (bytes : List ℕ) (d : D) (r : Run D (Unit {0})) (retry : Cmd D (Unit {0}))
      → WriteLaw contents b bytes d r
      → ((d' : D) → WriteLaw contents b bytes d' (retry d'))
      → WriteLaw contents b bytes d (on_answer r retry)
  unfolding on_answer
  answer_write b bytes d (done _ d') retry law next = law
  answer_write b bytes d (fail e d') retry law next =
      rw law.0 (write_after b bytes d d' (retry d') law.1 (next d'))
  answer_write b bytes d panicked retry law next = law
  answer_write b bytes d blocked retry law next = law

  attempts_write :
      (n b : ℕ) (bytes : List ℕ)
      → b < size
      → IsBlock bytes
      → (d : D) → WriteLaw contents b bytes d (attempts n (dev.write (b * block_size) bytes) d)
  unfolding attempts
  attempts_write zero b bytes h w d =
      answer_write b bytes d _ _ (disk.writes b bytes d h w)
        (λ d'. (refl, (λ k ne. refl), disk.blocks d' b))
  attempts_write (suc n) b bytes h w d =
      answer_write b bytes d _ _ (disk.writes b bytes d h w) (attempts_write n b bytes h w)

  -- Reading: the block's contents come back, or the call fails with EIO; nothing else changes.
  pub readblock_lem :
      (b : ℕ) (s : Sfs D)
      → b < size
      → BigLock.do_i_hold s.biglock s.curthread ≡ true
      → Ensures
          (λ bytes s'. (bytes ≡ contents s.device b) × SameFs s s' × SameBlocks contents s s')
          (λ e s'. (e ≡ eio) × SameFs s s' × SameBlocks contents s s')
          (readblock dev b s)
  unfolding readblock rwblock
  readblock_lem b s h held = rw held (go _ (attempts_read 10 b h s.device))
    where
      go :
          (r : Run D (List ℕ))
          → ReadLaw contents b s.device r
          → Ensures
              (λ bytes s'. (bytes ≡ contents s.device b) × SameFs s s' × SameBlocks contents s s')
              (λ e s'. (e ≡ eio) × SameFs s s' × SameBlocks contents s s')
              (in_fs s r)
      go (done bytes d') law = returns (law.0, same_fs s d', law.1)
      go (fail e d') law = fails (law.0, same_fs s d', law.1)
      go panicked law = absurd law
      go blocked law = absurd law

  -- Writing: the block is replaced and no other is touched, or the call fails with EIO and at most
  -- that block is spoilt.
  pub writeblock_lem :
      (b : ℕ) (bytes : List ℕ) (s : Sfs D)
      → b < size
      → IsBlock bytes
      → BigLock.do_i_hold s.biglock s.curthread ≡ true
      → Ensures
          (λ _ s'.
            SameFs s s'
            × ((k : ℕ) → contents s'.device k ≡ (if b == k then bytes else contents s.device k)))
          (λ e s'.
            (e ≡ eio)
            × SameFs s s'
            × ((k : ℕ) → b ≢ k → contents s'.device k ≡ contents s.device k))
          (writeblock dev b bytes s)
  unfolding writeblock rwblock
  writeblock_lem b bytes s h w held = rw held (go _ (attempts_write 10 b bytes h w s.device))
    where
      go :
          (r : Run D (Unit {0}))
          → WriteLaw contents b bytes s.device r
          → Ensures
              (λ _ s'.
                SameFs s s'
                × ((k : ℕ)
                    → contents s'.device k ≡ (if b == k then bytes else contents s.device k)))
              (λ e s'.
                (e ≡ eio)
                × SameFs s s'
                × ((k : ℕ) → b ≢ k → contents s'.device k ≡ contents s.device k))
              (in_fs s r)
      go (done _ d') law = returns (same_fs s d', law)
      go (fail e d') law = fails (law.0, same_fs s d', law.1)
      go panicked law = absurd law
      go blocked law = absurd law
