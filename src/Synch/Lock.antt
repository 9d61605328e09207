-- ===== src/Synch/Lock.antt =====
-- The lock of kern/thread/synch.c, as one thread meets it: each function runs with `lock_lock`
-- held, so that it is one step of the thread that calls it.
pub mod Threads
use ops_class.Base.{ℕ, ◌+◌, ◌-◌, ◌%◌, ◌^◌, Bool, true, false, ◌==◌, ltb, if◌then◌else◌}
use ops_class.Base.Run.{Checked, value, panic}

-- `struct lock`, less its name, its wait channel and its spinlock. Threads are numbers.
pub record Lock : Type 0 where
  pub lock_thread : ℕ
  pub lock_count : ℕ

-- `lock_create` by the thread `curthread`, its allocations given.
unfoldable pub create : ℕ → Lock
create curthread = record { lock_thread = curthread; lock_count = 1 }

-- What one look at the lock comes to in `lock_acquire`.
pub data Acquire : Type 0 where
  acquired : Lock → Acquire
  -- in `wchan_sleep`, to look again once woken
  sleeps : Acquire
  asserts : Acquire

unfoldable pub acquire : Lock → Bool → Acquire
acquire lock in_interrupt =
    if in_interrupt
    then asserts
    else if lock.lock_count == 0
    then sleeps
    else acquired (record lock { lock_count = lock.lock_count - 1 })

-- `lock_count` is an `unsigned`, and the assertion after the increment is `lock_count > 0`.
unfoldable pub release : Lock → Checked Lock
release lock =
    let count = (lock.lock_count + 1) % 2 ^ 32 in
    if ltb 0 count then value (record lock { lock_count = count }) else panic

unfoldable pub do_i_hold : Lock → ℕ → Bool
do_i_hold lock curthread =
    if lock.lock_count == 1 then false else if curthread == lock.lock_thread then true else false
