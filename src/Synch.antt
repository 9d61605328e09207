-- ===== src/Synch.antt =====
-- kern/thread/synch.c: the semaphore and the lock, over the wait channels of kern/thread/thread.c.
pub mod Wchan
pub mod Sem
pub mod Lock
mod Tests
