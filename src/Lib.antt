-- ===== src/Lib.antt =====
-- The kernel of the UCAS operating system laboratory for MIPS: a small operating system in C, with
-- processes, locks, page tables and a file system.
--
-- Parts and files
--   kernel/sched/queue.c      Queue: doubly linked queues of process control blocks, over a store
--                             of links; Queue.Spec says which list of items a queue stands for, and
--                             Queue.Push, Queue.Dequeue and Queue.Remove prove the operations.
--   include/os/sched.h        Kernel: the state that the scheduler and the locks share. Kernel.Inv
--                             ties queues and process control blocks together, Kernel.Keeps says
--                             what an operation leaves alone.
--   kernel/sched/sched.c      Wakeup (do_unblock_one, do_unblock_all, proc_get_lock, proc_lose_lock,
--                             and the walk over a queue of check_sleeping and free_proc), Sched (the
--                             process table, free_proc, check_sleeping, scheduler), Process
--                             (do_sleep, do_exit, do_kill, do_block, do_waitpid, do_spawn).
--   arch/mips/kernel/entry.S  Sched.do_scheduler: the cursor is saved and restored around scheduler.
--   kernel/sched/time.c       Time: the clock.
--   kernel/locking/lock.c     Lock (initialising and releasing a mutex lock, which the scheduler
--                             calls) and Mutex (acquiring one, and the binary semaphores).
--   ipc/cond.c, ipc/barrier.c Cond and Barrier.
--   mm/memory.c               Memory: the page allocator, the page tables and the TLB refill.
--   libs/bitmap.c             Bitmap, on 32-bit words.
--   libs/string.c             Strings, on a byte-addressed memory.
--   libs/mailbox.c            Mailbox: rings of bytes with a lock and two conditions.
--   drivers/screen.c          Screen: the screen buffer and what it sends to the terminal, and
--                             Screen.Reflush, which has a model of the terminal.
--   libs/printk.c             Print: formatting numbers and the bounded buffer. Print.Format: the formats,
--                             and printk, printf and kprintf.
--   fs/fs.c, lower half       Disk: the buffer of disk blocks. Blocks: the bitmaps of inodes and data blocks.
--   fs/fs.c, upper half       Fs: the records of the file system. Fs.Mount (partition table, making,
--                             mounting and unmounting), Fs.Lookup (paths), Fs.Directory (entries),
--                             Fs.DataBlock (which block holds a byte of a file) and Fs.Files (open
--                             files). Fs.Lookup.Tree is the tree of directories as a function from
--                             names to inodes, which do_find is proved against.
--   include/sys/syscall.h     Syscall: the numbers of the system calls and, with init_syscall of
--                             init/main.c, the table of the handlers.
--   init/main.c               Init: the other functions that set the kernel up.
--   kernel/irq/irq.c          Irq: the handler of interrupts and exceptions, over an interface (Irq.Os)
--                             to what it calls, which Irq.Timer fills with the kernel modelled here.
--                             Irq.Wrapper: the user's side of the system calls,
--                             kernel/syscall/syscall.c.
--   tools/createimage.c       Image: the disk image that is made of ELF files.
--   Base holds the shared names: lists, arrays, Boolean tests, and commands (Base.Run). Tests holds
--   the theorems at concrete states.
--
-- How it is modelled
--   Stateful code is a command: a function from the state to a result and a new state, or nothing
--   when the C code reads or writes through NULL. `Runs P` says that a command ends with a result
--   and a state that have the property P. A pointer is a number and NULL is 0; the i-th entry of
--   pcb_list is the pointer i + 1. The three static queues stand at the addresses 1 to 3, the queue
--   of a lock, a barrier or a condition at its offset in the structure. Numbers are natural numbers,
--   with the wrap-around of unsigned types written out. A call of do_scheduler ends in the process
--   that is switched to; what follows it in the C code belongs to the next switch back, so such code
--   is a definition of its own.
--
-- Loops and fuel
--   The walks over a queue (do_unblock_all, check_sleeping, free_proc) have fuel 33, one more than
--   the process table has entries; running out is a fault, and Wakeup.Unblock and Wakeup.Loop prove
--   that it does not happen, since a queue holds each process at most once. A scan
--   for the end of a string has fuel 4096 (Strings.max_string), which the theorems about strings ask
--   for; the digits of mini_itoa have fuel 32, enough for 32 bits in every base; the search of block_get
--   for a buffer goes round the 32 buffers once, and a fault stands for going round for ever. The loop over
--   a path has one pass for each of its 100 bytes at most (Fs.Lookup.Walk), that of read and write one for
--   each byte and one more (Fs.Files.Chunks), and that over a format one for each character and one more
--   (Print.Format.Inside); each theorem proves that this is enough. All other
--   loops have a bound in the C code and are structural recursion.
--
-- What is not modelled
--   The register contexts that do_spawn writes, the PRIORITY_SCHED variant of the scheduler (not
--   built), spin locks, the entry code in assembly other than do_scheduler's order of calls, and the
--   address-space identifier that it writes to CP0 EntryHi. The network driver and the boot code are
--   device code. The handlers of other exceptions and the copying of the handlers to their addresses are left out.
--   Of the file system, reading and writing the partition table on the card and the messages are left
--   out. The shell and the test programs are not modelled.
pub mod Base
pub mod Queue
pub mod Memory
pub mod Kernel
pub mod Wakeup
pub mod Time
pub mod Lock
pub mod Sched
pub mod Process
pub mod Mutex
pub mod Barrier
pub mod Cond
pub mod Bitmap
pub mod Strings
pub mod Mailbox
pub mod Screen
pub mod Disk
pub mod Print
pub mod Blocks
pub mod Syscall
pub mod Irq
pub mod Fs
pub mod Init
pub mod Tests
pub mod Image
