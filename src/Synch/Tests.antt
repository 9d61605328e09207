-- ===== src/Synch/Tests.antt =====
-- Short runs of threads on a semaphore and on a lock.
use ops_class.Base.{refl, [], ◌∷◌, arith}
use ops_class.Synch.Wchan.{empty, sleep, wakeone, woken}
use ops_class.Synch.Sem
use ops_class.Synch.Sem.{Sem, look, up}
use ops_class.Synch.Sem.Threads
use ops_class.Synch.Sem.Threads.{
  Counted, created, passed, slept, woken_passed, upped, Reaches-Counted,
}
use ops_class.Synch.Lock
use ops_class.Synch.Lock.Threads as Locks
use ops_class.Synch.Lock.Threads.{System, Exclusive, Reaches-Exclusive, leave-Left, leave, Left}

-- Thread 7 waits on a semaphore at 0, is woken by a `V` and passes.
abbrev after_handover : Sem
after_handover = record { sem_count = 0; wchan = empty }

handover : Threads.Reaches 0 1 1 after_handover
unfolding Sem.create look up sleep wakeone woken
handover = woken_passed 7 [] [] (upped (slept 7 created refl) refl) refl refl

Reaches-Counted_example : Counted 0 1 1 after_handover
Reaches-Counted_example = Reaches-Counted (omega arith) handover

-- Thread 1 acquires, thread 2 waits, thread 1 releases, and thread 2 gets the lock.
abbrev held_by_two : System
held_by_two = record {
  lock = record { lock_thread = 1; lock_count = 0 };
  wchan = empty;
  inside = 2 ∷ [];
}

two_threads : Locks.Reaches 1 held_by_two
unfolding Lock.create Lock.acquire Lock.release Locks.look leave sleep wakeone woken
two_threads =
    Locks.wakes 2 [] []
      (Locks.releases 1 [] [] (Locks.acquires 2 (Locks.acquires 1 Locks.created)) refl refl) refl

Reaches-Exclusive_example : Exclusive held_by_two
Reaches-Exclusive_example = Reaches-Exclusive two_threads
