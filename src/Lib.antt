-- ===== src/Lib.antt =====
-- A model of a small teaching kernel for MIPS: its queues of process control blocks, the scheduler
-- with three ready queues, sleeping, mutex locks, semaphores, barriers, condition variables and the
-- process calls, with the mailboxes of its library.
--
-- State. `Kernel.State` holds what the kernel's C code keeps in memory: the process table `pcb[16]`, the
-- links and queues, the global variables of kernel/sched/sched.c, kernel/sched/time.c,
-- drivers/screen.c and init/main.c, and the synchronisation objects, which live in the memory of user
-- programs. A pointer to a block is its index, an object's address a number. An operation is a
-- function from a state to a `Run.Run`: it gives a state (`ok`), uses a NULL pointer or memory behind
-- an array (`fault`), stays in `while(1)` (`hang`), or its loop has no fuel left (`out_of_fuel`).
-- The kernel runs with interrupts off, so an operation is one step.
--
-- Switching. `do_scheduler` in arch/mips/kernel/entry.S saves the registers of the old process, calls
-- `scheduler`, and returns on the stack of the new one. Here it notes a `Continuation` in the block of
-- the old process, which says what that process does when it is picked again; the state after the
-- call is that in which the new process goes on.
--
-- Files:
-- - Prelude, Run: tests on numbers, lists, the integers, and results of operations.
-- - Queue: kernel/sched/queue.c on `prev` and `next` links. `Queue.Represents` says which list of
--   blocks each queue stands for; Queue/Push, Queue/Dequeue and Queue/Remove relate the functions to it,
--   and Queue/Follow the links.
-- - Kernel: include/os/sched.h, lock.h, sem.h, barrier.h and cond.h, and the search for a process number.
-- - Sched: kernel/sched/sched.c, kernel/sched/time.c and `do_scheduler`. The theorems stand in
--   Sched/Unblock, Sched/Sleep, Sched/Schedule and Sched/Latency.
-- - Locking: kernel/locking/lock.c (Mutex), sem.c (Semaphore), barrier.c (Barrier), cond.c (Condition).
-- - Process: init/main.c, with the boot of the table (Table), `do_spawn` (Spawn), `do_wait` (Wait),
--   the release of the locks of a process that ends (Locks), `do_exit` (End) and `do_kill` (Kill).
-- - Text: libs/string.c on a memory of bytes. Screen: drivers/screen.c.
-- - Syscall: kernel/syscall/syscall.c and `init_syscall` of init/main.c; Syscall/Numbers has the numbers of
--   include/sys/syscall.h, Syscall/Wrappers the functions for user programs, Syscall/Outcome which
--   kernel functions end in the scheduler, and Syscall/Dispatch what each call runs. Interrupt:
--   kernel/irq/irq.c and what a process does when its turn comes again. Both work on a
--   `Syscall.Machine`: the kernel's state, the screen and the memory.
-- - Mailbox: libs/mailbox.c over the interface `Mailbox.Services` of kernel calls. Mailbox/Stack and
--   Mailbox/Receive have the loops, Mailbox/RoundTrip the two together, Mailbox/Open how a name gets a
--   box, and Mailbox/Alone fills the interface with the kernel's operations. The counters of a box
--   stand beside the memory of the programs, and a name that `strcpy` would write over them is a `fault`.
-- - Boot: `_start` and `init_exception` of init/main.c; Boot/Start has what they leave.
-- - System: the parts together. System/Placed says which status the processes of a queue have,
--   System/Invariant what holds between two operations (`IsOrderly`) and before a call of the scheduler
--   (`IsSettled`), System/Counted how the synchronisation objects agree with their queues, with the
--   counting in Tally and Cleared; Turn and Pick are about the scheduler, Moves and Calls about blocking
--   and waking, Objects, Conditions, Mutex, Acquire, Processes, Spawn, Exit and Setup about the
--   operations, Zeroed about the boot, Handlers and Events about system calls and interrupts.
--   System/Reach has the states that the kernel reaches, System/Waiting what the waking operations do
--   in them, System/Rounds who runs after some calls of the scheduler, and System/Ticks who runs
--   after some interrupts of the timer, behind each of which the picked process goes on.
-- - Image: tools/createimage.c, which runs on the host, over an interface `Stdio` of the C library's
--   streams and `Elf` of the headers. Image/Segments and Image/Contents have its functions, Image/Build
--   the image; Image/Bootblock is arch/mips/boot/bootblock.S, and Image/Load what it loads.
-- - Tests: small states on which the theorems are tried.
--
-- Bounds. `NUM_MAX_TASK` is 16. A loop over a queue runs on 17 rounds of fuel: a queue holds distinct
-- blocks of the table, so it has at most 16. A loop over a string is given its rounds, and the
-- theorems ask for more of them than the string has bytes; so are the loops of a mailbox, which take a
-- round for each byte of the message when none waits. Clocks and stack addresses are words of
-- 32 bits. Process numbers and the counters of objects are integers, which are not followed past
-- the range of an `int`.
--
-- Not modelled: the other assembly code, the firmware calls, the text of messages
-- (a message is a constructor of `Kernel.Message`; libs/printk.c is a copy of another project's
-- mini-printf), and the user programs. `sys_block`, `sys_unblock_one` and `sys_unblock_all` are
-- modelled, but are no steps of `System.Reach`: they work on any queue that the caller names. The
-- registers that only assembly code touches are left out of `RegsContext`. `System.Reach` starts from
-- zeroed memory, which nothing in the image or the boot block provides for `.bss`: it is what the
-- loader is taken to leave.
pub mod Prelude
pub mod Run
pub mod Queue
pub mod Kernel
pub mod Sched
pub mod Locking
pub mod Process
pub mod Text
pub mod Screen
pub mod Syscall
pub mod Interrupt
pub mod Mailbox
pub mod Image
pub mod Boot
pub mod System
pub mod Tests
