-- ===== src/Sched.antt =====
-- kern/thread: the lists of threads, and what they stand on.
pub mod Threadlist
pub mod Spl
pub mod Spinlock
mod Tests
