-- ===== src/Lib.antt =====
-- Aether is a kernel in Rust. This library models the parts of it that keep state behind the
-- system calls of processes, and its allocator of memory, and shows what each of them promises.
--
-- - Vfs: aether-kernel/libs/aether-vfs. Vfs/Types and Vfs/Open hold the errors, poll events and open
--   flags of src/node.rs and src/file.rs; Vfs/Wait the queues of src/wait.rs; Vfs/Path the text
--   functions of src/path.rs; Vfs/Flock the advisory lock of src/inode.rs.
-- - Pipe: aether-kernel/libs/aether-fs/src/pipe.rs, the buffer that two kinds of endpoint share.
-- - EventFd: aether-kernel/src/fs/eventfd.rs, a counter read and written as eight bytes.
-- - Signal: aether-kernel/src/signal. Signal/Abi and Signal/Altstack are abi.rs, Signal/Core is
--   core.rs, Signal/State with its Queue and OnStack is state.rs.
-- - Fd: aether-kernel/src/fs/fd.rs, the descriptors of a process.
-- - Itimer: aether-kernel/src/process/itimer.rs, the real timers with their index by deadline.
-- - Kmsg: aether-kernel/libs/aether-kmsg/src/lib.rs, the ring of log records and its file.
-- - Buddy: aether-frame/src/mm/buddy.rs, the allocator of physical frames. Buddy.antt has its lists,
--   Buddy/Orders the sizes of blocks, Buddy/Global splitting and merging, Buddy/Api the caches of
--   processors and the calls, Buddy/Ranges the usable frames of the memory map and Buddy/Seed the
--   start on them. Buddy/Weight, Buddy/Valid, Buddy/Lists, Buddy/Split, Buddy/Merge, Buddy/Caches and
--   Buddy/Calls are the proofs, in the order of the steps that they are about.
-- - Partition: aether-kernel/libs/aether-drivers/src/block/partition.rs, the partitions in the tables of
--   a disk; Partition/Gpt and Partition/Mbr are the two kinds of table.
-- - TimerFd: aether-kernel/src/fs/timerfd.rs, timers that are read as files, with the registry of their
--   deadlines.
-- - Namespace: aether-kernel/src/rootfs/namespace.rs, the mounts by path; Namespace/Context is the root
--   and current directory of a process.
-- - Prelude: Boolean tests, lists, digits, byte encodings and ordered maps that these share.
--
-- The parts meet in three places. Pipes, eventfds, locks and signals wake those who wait through the
-- queue of Vfs/Wait; a wake is logged in the queue, where the source calls a listener. Mounts and
-- descriptors name places by the paths of Vfs/Path. Expired timers give the signals of Signal/Abi.
--
-- A method of the source is the definition of its name; one that the source guards by a lock takes
-- the state and returns the new one, so that each call is one step. What stands behind an `Arc` that
-- several hold (the actions of signals, the entries of a descriptor table) is kept by address in a
-- store. Numbers are natural numbers; where the source wraps, saturates or checks, this is written
-- out. A text is the list of its bytes.
--
-- Loops over a collection are recursion on it. Others are bounded by a number: the loops over orders of
-- blocks by the orders that are left, a refill and a drain by the blocks to move, the seeding of a
-- region by its frames, each round using up one or more, a table of partitions by its entries. The
-- chain of extended boot records may have no end: it runs for a given number of rounds, with an
-- outcome of its own when they run out. Three loops run on fuel: a pipe's write runs until nothing is
-- left or the pipe is full, for which the bytes to write and one more are enough rounds; the search
-- for a free descriptor ends within the number of entries and one more, if there is room below
-- u32::MAX; the loop over expired deadlines ends within the number of deadlines and one more, before
-- the time u64::MAX.
--
-- Not modelled: the making of descriptors for new open files in fd.rs, with the open file
-- descriptions of file.rs that it needs; in timerfd.rs the wake of expired timers and the next
-- wakeup; in buddy.rs the check validate_invariants, the counters of free pages and the trait that
-- tries an allocation again after memory has been recovered, while the links of the lists through
-- the pool of nodes are the lists themselves; page tables, drivers, interrupts and boot code,
-- sockets, the process manager, the file systems and the handlers of system calls. Listeners, the
-- disk, the clock and the text that a log call formats are arguments. Hardware and firmware code
-- does raw input and output; the rest is code that builds on the parts here.
pub mod Prelude
pub mod Vfs
pub mod Pipe
pub mod EventFd
pub mod Signal
pub mod Fd
pub mod Itimer
pub mod Kmsg
pub mod Namespace
pub mod Buddy
pub mod Partition
pub mod TimerFd
