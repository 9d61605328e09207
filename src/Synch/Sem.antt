-- ===== src/Synch/Sem.antt =====
-- The semaphore of kern/thread/synch.c. `sem_lock` is held from the look at the count to the end of
-- the step, so that each is one step.
pub mod Threads
use ops_class.Base.{ℕ, ◌+◌, ◌-◌, ◌%◌, ◌^◌, Option, none, some, ◌==◌, ltb, if◌then◌else◌}
use ops_class.Base.Run.{Checked, value, panic}
use ops_class.Synch.Wchan.{Wchan, empty, sleep, wakeone}

-- `struct semaphore`, less its name and its spinlock.
pub record Sem : Type 0 where
  pub sem_count : ℕ
  pub wchan : Wchan

-- `sem_create`, its allocations given.
unfoldable pub create : ℕ → Sem
create initial_count = record { sem_count = initial_count; wchan = empty }

-- What a look at the count comes to in `P`, outside interrupt handlers: the thread passes, or sleeps until woken.
pub data Look : Type 0 where
  passes sleeps : Sem → Look

unfoldable pub look : ℕ → Sem → Look
look thread sem =
    if sem.sem_count == 0
    then sleeps (record sem { wchan = sleep thread sem.wchan })
    else passes (record sem { sem_count = sem.sem_count - 1 })

-- `V`: `sem_count` is an `unsigned`.
unfoldable pub up : Sem → Checked Sem
up sem =
    let count = (sem.sem_count + 1) % 2 ^ 32 in
    if ltb 0 count then value (record { sem_count = count; wchan = wakeone sem.wchan }) else panic
