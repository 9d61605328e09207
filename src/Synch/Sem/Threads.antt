-- ===== src/Synch/Sem/Threads.antt =====
-- Any number of threads on one semaphore, interleaved.
use ops_class.Base.{
  ℕ, ◌+◌, ◌-◌, ◌%◌, ◌^◌, ◌≤◌, ◌<◌, ◌≡◌, refl, sym, ◌∙◌, ap, ◌⊎◌, inl, inr, List, [], ◌∷◌, ◌++◌,
  length, length-append, ltb, ◌==◌, arith, Bool-cases, subst, ==→eq, ==→ne,
}
use ops_class.Base.Run.{Checked, value, panic}
use ops_class.Synch.Wchan.{sleep, wakeone, woken}
use ops_class.Synch.Sem.{Sem, create, Look, passes, sleeps, look, up}

-- The semaphore with the runnable threads `ready`.
abbrev pub with_ready : Sem → List ℕ → Sem
with_ready sem ready = record sem { wchan = record sem.wchan { runnable = ready } }

-- What steps of threads lead to, from a semaphore made with the count `initial`. A thread calls
-- `P`; a thread that was woken, anywhere among those that are ready, looks again; a thread or an
-- interrupt handler calls `V`. The numbers are how often `P` has been passed, and how often `V`
-- has been called.
pub data Reaches (initial : ℕ) : ℕ → ℕ → Sem → Type 0 where
  created : Reaches initial 0 0 (create initial)
  passed :
      (thread : ℕ) {downs ups : ℕ} {sem sem' : Sem}
      → Reaches initial downs ups sem
      → look thread sem ≡ passes sem'
      → Reaches initial (downs + 1) ups sem'
  slept :
      (thread : ℕ) {downs ups : ℕ} {sem sem' : Sem}
      → Reaches initial downs ups sem
      → look thread sem ≡ sleeps sem'
      → Reaches initial downs ups sem'
  woken_passed :
      (thread : ℕ) (before after : List ℕ) {downs ups : ℕ} {sem sem' : Sem}
      → Reaches initial downs ups sem
      → sem.wchan.runnable ≡ before ++ (thread ∷ after)
      → look thread (with_ready sem (before ++ after)) ≡ passes sem'
      → Reaches initial (downs + 1) ups sem'
  woken_slept :
      (thread : ℕ) (before after : List ℕ) {downs ups : ℕ} {sem sem' : Sem}
      → Reaches initial downs ups sem
      → sem.wchan.runnable ≡ before ++ (thread ∷ after)
      → look thread (with_ready sem (before ++ after)) ≡ sleeps sem'
      → Reaches initial downs ups sem'
  upped :
      {downs ups : ℕ} {sem sem' : Sem}
      → Reaches initial downs ups sem
      → up sem ≡ value sem'
      → Reaches initial downs (ups + 1) sem'

-- Threads sleep only while the threads that are ready can use up the count.
abbrev pub NoLostWakeup : Sem → Type 0
NoLostWakeup sem = (sem.wchan.sleeping ≡ []) ⊎ (sem.sem_count ≤ length sem.wchan.runnable)

abbrev Passes : Sem → Look → Type 0
Passes sem (passes sem') =
    (0 < sem.sem_count) × (sem' ≡ record sem { sem_count = sem.sem_count - 1 })
Passes sem (sleeps sem') =
    (sem.sem_count ≡ 0) × (sem'.sem_count ≡ 0) × (sem'.wchan.runnable ≡ sem.wchan.runnable)

look-Passes : (thread : ℕ) (sem : Sem) → Passes sem (look thread sem)
unfolding look sleep
look-Passes thread sem = elim (Bool-cases (sem.sem_count == 0)) [
  | inl none_left ↦ let z = ==→eq sem.sem_count 0 none_left in rw none_left (z, z, refl)
  | inr some_left ↦ let n = ==→ne sem.sem_count 0 some_left in rw some_left (omega arith, refl)
]

abbrev Upped : Sem → Checked Sem → Type 0
Upped sem (value sem') =
    (sem'.sem_count ≡ sem.sem_count + 1)
    × (sem'.sem_count < 2 ^ 32)
    × (NoLostWakeup sem → NoLostWakeup sem')
Upped sem panic = Unit {0}

wakeup_more :
    (count : ℕ) (sleeping runnable : List ℕ)
    → NoLostWakeup
        (record { sem_count = count; wchan = record { sleeping = sleeping; runnable = runnable } })
    → NoLostWakeup (record { sem_count = count + 1; wchan = woken sleeping runnable })
unfolding woken
wakeup_more count [] runnable h = inl refl
wakeup_more count (t ∷ sleeping) runnable (inl h) = absurd (omega (arith, ap length h))
wakeup_more count (t ∷ sleeping) runnable (inr h) =
    inr (omega (arith, h, length-append runnable (t ∷ [])))

up-Upped : (sem : Sem) → sem.sem_count < 2 ^ 32 → Upped sem (up sem)
unfolding up wakeone
up-Upped sem word = elim (Bool-cases (ltb 0 ((sem.sem_count + 1) % 2 ^ 32))) [
  | inl counted ↦
      let e : (sem.sem_count + 1) % 2 ^ 32 ≡ sem.sem_count + 1 = ground (arith, counted, word) in
      rw (counted, e)
        (refl, omega (arith, e), wakeup_more sem.sem_count sem.wchan.sleeping sem.wchan.runnable)
  | inr wrapped ↦ rw wrapped tt
]

-- A state that threads lead to.
pub record Counted (initial downs ups : ℕ) (sem : Sem) : Type 0 where
  pub word : sem.sem_count < 2 ^ 32
  pub conserved : sem.sem_count + downs ≡ initial + ups
  pub no_lost_wakeup : NoLostWakeup sem

Counted-passes :
    (initial downs ups : ℕ) (sem sem' : Sem)
    → sem.sem_count < 2 ^ 32
    → sem.sem_count + downs ≡ initial + ups
    → (sem.wchan.sleeping ≡ []) ⊎ (sem.sem_count ≤ length sem.wchan.runnable + 1)
    → Passes sem (passes sem')
    → Counted initial (downs + 1) ups sem'
Counted-passes initial downs ups sem sem' word c wake (pos, e) =
    subst (Counted initial (downs + 1) ups) (sym e)
      (record { word = omega arith; conserved = omega arith; no_lost_wakeup = lower wake })
  where
    lower :
        (sem.wchan.sleeping ≡ []) ⊎ (sem.sem_count ≤ length sem.wchan.runnable + 1)
        → NoLostWakeup (record sem { sem_count = sem.sem_count - 1 })
    lower (inl h) = inl h
    lower (inr h) = inr (omega arith)

Counted-sleeps :
    (initial downs ups : ℕ) (sem sem' : Sem)
    → sem.sem_count + downs ≡ initial + ups
    → Passes sem (sleeps sem')
    → Counted initial downs ups sem'
Counted-sleeps initial downs ups sem sem' c (z, z', same) = record {
  word = omega arith;
  conserved = omega arith;
  no_lost_wakeup = inr (omega arith);
}

length-insert :
    (before after : List ℕ) (t : ℕ) → length (before ++ (t ∷ after)) ≡ length (before ++ after) + 1
length-insert before after t =
    length-append before (t ∷ after) ∙ (omega (arith, length-append before after))

-- However threads are interleaved on a semaphore, its count is the initial count plus the calls of
-- `V` less the passes of `P`, so that never more pass than the initial count and `V` allow; and no
-- wakeup is lost: when a thread sleeps, the count is at most the number of woken threads that have
-- yet to look.
pub Reaches-Counted :
    {initial downs ups : ℕ} {sem : Sem}
    → initial < 2 ^ 32
    → Reaches initial downs ups sem
    → Counted initial downs ups sem
unfolding create
Reaches-Counted word created = record { word = word; conserved = refl; no_lost_wakeup = inl refl }
Reaches-Counted {initial} {ups = ups} {sem = sem'} word (passed thread {downs} {sem = sem} run e) =
    let c = Reaches-Counted word run in
    Counted-passes initial downs ups sem sem' c.word c.conserved (weaken c.no_lost_wakeup)
      (subst (Passes sem) e (look-Passes thread sem))
  where
    weaken :
        NoLostWakeup sem
        → (sem.wchan.sleeping ≡ []) ⊎ (sem.sem_count ≤ length sem.wchan.runnable + 1)
    weaken (inl h) = inl h
    weaken (inr h) = inr (omega arith)
Reaches-Counted {initial} {downs} {ups} {sem = sem'} word (slept thread {sem = sem} run e) =
    let c = Reaches-Counted word run in
    Counted-sleeps initial downs ups sem sem' c.conserved
      (subst (Passes sem) e (look-Passes thread sem))
Reaches-Counted {initial} {ups = ups} {sem = sem'} word
      (woken_passed thread before after {downs} {sem = sem} run split e) =
    let c = Reaches-Counted word run in
    Counted-passes initial downs ups (with_ready sem (before ++ after)) sem' c.word c.conserved
      (weaken c.no_lost_wakeup)
      (subst (Passes (with_ready sem (before ++ after))) e
        (look-Passes thread (with_ready sem (before ++ after))))
  where
    weaken :
        NoLostWakeup sem
        → (sem.wchan.sleeping ≡ []) ⊎ (sem.sem_count ≤ length (before ++ after) + 1)
    weaken (inl h) = inl h
    weaken (inr h) = inr (omega (arith, h, ap length split, length-insert before after thread))
Reaches-Counted {initial} {downs} {ups} {sem = sem'} word
      (woken_slept thread before after {sem = sem} run split e) =
    let c = Reaches-Counted word run in
    Counted-sleeps initial downs ups (with_ready sem (before ++ after)) sem' c.conserved (
      subst (Passes (with_ready sem (before ++ after))) e
        (look-Passes thread (with_ready sem (before ++ after))))
Reaches-Counted {initial} {downs} {sem = sem'} word (upped {ups = ups} {sem = sem} run e) =
    let c = Reaches-Counted word run in
    let u : Upped sem (value sem') = subst (Upped sem) e (up-Upped sem c.word) in
    record {
      word = u.1;
      conserved = omega (arith, u.0, c.conserved);
      no_lost_wakeup = u.2 c.no_lost_wakeup;
    }
