-- ===== src/Synch/Lock/Threads.antt =====
-- Any number of threads on one lock, interleaved: who is inside, and who is woken.
use ops_class.Base.{
  ℕ, ◌+◌, ◌≤◌, ◌≡◌, refl, ◌∙◌, ap, ◌⊎◌, inl, inr, false, List, [], ◌∷◌, ◌++◌, length, length-append,
  ◌==◌, arith, Bool-cases, subst, ==→eq, ==→ne,
}
use ops_class.Base.Run.{Checked, value, panic}
use ops_class.Synch.Wchan.{Wchan, empty, sleep, wakeone, woken}
use ops_class.Synch.Lock.{Lock, create, Acquire, acquired, sleeps, asserts, acquire, release}

-- The lock with its wait channel, and the threads between an acquire and the next release.
pub record System : Type 0 where
  pub lock : Lock
  pub wchan : Wchan
  pub inside : List ℕ

-- What the look of `thread` at the lock in `lock_acquire` does, outside interrupt handlers.
pub looked : ℕ → System → Acquire → System
looked thread s (acquired lock) = record s { lock = lock; inside = thread ∷ s.inside }
looked thread s sleeps = record s { wchan = sleep thread s.wchan }
looked thread s asserts = s

unfoldable pub look : ℕ → System → System
unfolding looked
look thread s = looked thread s (acquire s.lock false)

-- `lock_release`, with the threads that are inside afterwards.
pub left : List ℕ → System → Checked Lock → Checked System
left inside s (value lock) =
    value (record { lock = lock; wchan = wakeone s.wchan; inside = inside })
left inside s panic = panic

unfoldable pub leave : List ℕ → System → Checked System
unfolding left
leave inside s = left inside s (release s.lock)

-- What threads that release only what they hold lead to, from a new lock.
pub data Reaches (maker : ℕ) : System → Type 0 where
  created : Reaches maker (record { lock = create maker; wchan = empty; inside = [] })
  acquires : (thread : ℕ) {s : System} → Reaches maker s → Reaches maker (look thread s)
  wakes :
      (thread : ℕ) (before after : List ℕ) {s : System}
      → Reaches maker s
      → s.wchan.runnable ≡ before ++ (thread ∷ after)
      → Reaches maker
          (look thread (record s { wchan = record s.wchan { runnable = before ++ after } }))
  releases :
      (thread : ℕ) (before after : List ℕ) {s s' : System}
      → Reaches maker s
      → s.inside ≡ before ++ (thread ∷ after)
      → leave (before ++ after) s ≡ value s'
      → Reaches maker s'

-- One thread is inside and the count is 0, or none is and the count is 1; and a thread sleeps only
-- while one is inside or one that was woken has yet to look.
pub record Exclusive (s : System) : Type 0 where
  pub one : length s.inside + s.lock.lock_count ≡ 1
  pub no_lost_wakeup : (s.wchan.sleeping ≡ []) ⊎ (s.lock.lock_count ≤ length s.wchan.runnable)

-- The same before a woken thread has been taken off those that are ready.
look-Exclusive :
    (thread : ℕ) (s : System)
    → length s.inside + s.lock.lock_count ≡ 1
    → (s.wchan.sleeping ≡ []) ⊎ (s.lock.lock_count ≤ length s.wchan.runnable + 1)
    → Exclusive (look thread s)
unfolding look looked acquire sleep
look-Exclusive thread s one wake = elim (Bool-cases (s.lock.lock_count == 0)) [
  | inl held ↦
      let z = ==→eq s.lock.lock_count 0 held in
      rw held (record { one = one; no_lost_wakeup = inr (omega arith) })
  | inr free ↦
      let n = ==→ne s.lock.lock_count 0 free in
      rw free (record { one = omega arith; no_lost_wakeup = inr (omega arith) })
]

abbrev pub Left : Checked System → Type 0
Left (value s) = Exclusive s
Left panic = ⊥

wakeone-wakes :
    (sleeping runnable : List ℕ)
    → ((woken sleeping runnable).sleeping ≡ []) ⊎ (1 ≤ length (woken sleeping runnable).runnable)
unfolding woken
wakeone-wakes [] runnable = inl refl
wakeone-wakes (t ∷ sleeping) runnable = inr (omega (arith, length-append runnable (t ∷ [])))

-- A release by a thread inside does not panic, and leaves none inside.
pub leave-Left :
    (inside : List ℕ) (s : System)
    → Exclusive s
    → length s.inside ≡ length inside + 1
    → Left (leave inside s)
unfolding leave left release wakeone
leave-Left inside s x out =
    let z : s.lock.lock_count ≡ 0 = omega (arith, x.one, out) in
    rw z (record {
      one = omega (arith, x.one, out);
      no_lost_wakeup = wakeone-wakes s.wchan.sleeping s.wchan.runnable;
    })

length-insert :
    (before after : List ℕ) (t : ℕ) → length (before ++ (t ∷ after)) ≡ length (before ++ after) + 1
length-insert before after t =
    length-append before (t ∷ after) ∙ (omega (arith, length-append before after))

-- However threads are interleaved on a lock, if they release it only when they have acquired it,
-- at most one is between acquire and release, the count says whether one is, and no wakeup is lost.
pub Reaches-Exclusive : {maker : ℕ} {s : System} → Reaches maker s → Exclusive s
unfolding create
Reaches-Exclusive created = record { one = refl; no_lost_wakeup = inl refl }
Reaches-Exclusive (acquires thread {s} run) =
    let x = Reaches-Exclusive run in look-Exclusive thread s x.one (weaken x.no_lost_wakeup)
  where
    weaken :
        (s.wchan.sleeping ≡ []) ⊎ (s.lock.lock_count ≤ length s.wchan.runnable)
        → (s.wchan.sleeping ≡ []) ⊎ (s.lock.lock_count ≤ length s.wchan.runnable + 1)
    weaken (inl h) = inl h
    weaken (inr h) = inr (omega arith)
Reaches-Exclusive (wakes thread before after {s} run split) =
    let x = Reaches-Exclusive run in
    look-Exclusive thread (record s { wchan = record s.wchan { runnable = before ++ after } }) x.one
      (weaken x.no_lost_wakeup)
  where
    weaken :
        (s.wchan.sleeping ≡ []) ⊎ (s.lock.lock_count ≤ length s.wchan.runnable)
        → (s.wchan.sleeping ≡ []) ⊎ (s.lock.lock_count ≤ length (before ++ after) + 1)
    weaken (inl h) = inl h
    weaken (inr h) = inr (omega (arith, h, ap length split, length-insert before after thread))
Reaches-Exclusive (releases thread before after {s} {s'} run split e) = subst Left e (
    leave-Left (before ++ after) s (Reaches-Exclusive run)
      (ap length split ∙ length-insert before after thread))
