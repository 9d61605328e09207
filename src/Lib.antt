-- ===== src/Lib.antt =====
-- OS/161, the teaching kernel of this repository, modelled part by part.
--
-- The parts and how they interact. User memory faults go to dumbvm (Vm), which takes physical
-- memory from ram.c and fills and copies it with the C library (Libc). System calls reach user
-- memory by copyinout (Vm/Copyinout). Threads wait for each other on semaphores and locks over wait
-- channels (Synch); the console (Dev) is a client of semaphores, and the VFS big lock (Vfs) one of
-- locks. The simple file system (Sfs) runs under the big lock, keeps its free blocks in a bitmap
-- (Bitmap), and reads and writes blocks through a device; its directories are files read and written
-- through sfs_metaio. Under the wait channels and the scheduler lie lists of threads, interrupt levels
-- and spinlocks (Sched). Data goes between the kernel and the buffers of a request through uio
-- (Klib/Uio), which is a client of copyinout and of memmove.
--
-- Which file models what (functions keep their names, less the prefix that the file's name gives):
--   Base              the helpers: native numbers and lists, tests into Bool, bits of a byte; Base/Run
--                     has error numbers, panics (a failing KASSERT or panic()) and the commands that
--                     pass a state along, which stays as it is when an error is returned
--   Bitmap            kern/lib/bitmap.c
--   Libc/Memory       common/libc/string: memcpy.c, memmove.c, memset.c, bzero.c
--   Libc/Strings      common/libc/string: strlen.c, strcpy.c, strcat.c, strcmp.c, strchr.c, strrchr.c
--   Klib              kern/lib/array.c with kern/include/array.h, kern/lib/bswap.c
--   Klib/Uio          kern/lib/uio.c
--   Sched/Threadlist  kern/thread/threadlist.c; Chain, Splice and Deque have the shape of a list
--   Sched/Spl         kern/thread/spl.c
--   Sched/Spinlock    kern/thread/spinlock.c, any number of processors taking their steps in any order
--   Synch/Wchan       the wait channels of kern/thread/thread.c
--   Synch/Sem, Lock   kern/thread/synch.c; Threads has any number of threads, interleaved
--   Vfs/BigLock       the big lock of kern/vfs/vfslist.c
--   Vm/Ram            kern/arch/mips/vm/ram.c
--   Vm/Dumbvm, Space  kern/arch/mips/vm/dumbvm.c: faults; address spaces
--   Vm/Copyinout      kern/vm/copyinout.c
--   Vm/Kmalloc        kern/vm/kmalloc.c: Pagerefs has the pages of pagerefs, Valid what a heap in order
--                     is, Alloc, Fresh, NewPage and Free the steps of kmalloc and kfree on one page
--   Dev/Console       kern/dev/generic/console.c; the reader of Trace is one at a time, as con_io keeps
--                     it with con_userlock_read (kgets does not)
--   Sfs/Io            the block layer of kern/fs/sfs/sfs_io.c
--   Sfs/Balloc        kern/fs/sfs/sfs_balloc.c
--   Sfs/Bmap          sfs_bmap of kern/fs/sfs/sfs_bmap.c
--   Sfs/Itrunc        sfs_itrunc of that file
--   Sfs/Metaio        sfs_metaio of kern/fs/sfs/sfs_io.c
--   Sfs/Dir           kern/fs/sfs/sfs_dir.c
--
-- How. Structures are records, calls that change state take it and hand it back. A function that
-- holds a spinlock from its first look at shared state to its last write is one step, and the
-- interleavings of threads are indexed data types of steps (Reaches, Runs). Numbers of the machine
-- are native naturals with the wrap-around of 32 bits written out. Memory is a function from
-- addresses to bytes, and to words in kmalloc. Loops recurse on the rounds that are left, which the calls take from the
-- bounds of the C loops, so no fuel can run out; the retries of sfs_rwblock are counted in the same
-- way. A loop of a string function, which the C code does not bound, takes the rounds that it may
-- run as an argument, and is none without enough; the loop of array_preallocate takes 40, more than
-- the doublings from 4 to 2^30. The loop of uiomove takes as many rounds as there are bytes to move
-- and buffers, and one more, since each round moves a byte or goes on to the next buffer. A processor
-- that spins on a spinlock takes a step for each look at the lock word.
--
-- What is a parameter. The device under the file system is an interface (Sfs/Device): an operations
-- record and the laws of a disk, which a driver is to fill; a witness fills them with a store of
-- blocks. Which user addresses can be accessed is a parameter of copyinout, and the address space in
-- use (proc_getas) one of uio. The success of kmalloc is an argument, where a function allocates, and
-- the pages that alloc_kpages hands out are arguments of kmalloc. A call of kmalloc or kfree is one
-- step, though the code gives up its spinlock while it asks for pages. The machine tests and sets a
-- lock word in one step.
--
-- What is not modelled: the scheduler and the code that switches threads, device drivers and
-- assembly, the rest of the VFS layer and of the file system, processes and system calls, user
-- programs, and tests. Assertions on the interrupt level and the count of spinlocks are modelled in
-- dumbvm and the lock, and are taken to hold in the wait channels.
pub mod Base
pub mod Bitmap
pub mod Klib
pub mod Libc
pub mod Synch
pub mod Vfs
pub mod Vm
pub mod Dev
pub mod Sfs
pub mod Sched
