-- ===== src/Kernel.antt =====
-- The kernel's state: include/os/sched.h (the process table), include/os/lock.h, sem.h, barrier.h and
-- cond.h (the synchronisation objects, which live in the memory of the user programs and are named
-- by numbers here), and the global variables of kernel/sched/sched.c, kernel/sched/time.c,
-- drivers/screen.c and init/main.c.
pub mod Lookup
use os_prj.Prelude.{
  ℕ, zero, suc, ◌+◌, ◌-◌, ◌==ℤ◌, ltb, if◌then◌else◌, Bool, true, false, Option, List, ◌++◌, [], ◌∷◌,
  ℤ, update,
}
use os_prj.Run.{Run, ok, fault}
use os_prj.Queue.{Links}
use os_prj.Queue.Represents.{num_max_task}

-- `task_status_t`
pub data TaskStatus : Type 0 where
  blocked : TaskStatus
  running : TaskStatus
  ready : TaskStatus
  exited : TaskStatus
  sleeping : TaskStatus
  not_exist : TaskStatus

-- `task_type_t`
pub data TaskType : Type 0 where
  kernel_process kernel_thread user_process user_thread : TaskType

-- The registers of `regs_context_t` that the C code writes: v0 (2), sp (29), ra (31) and CP0's.
pub record RegsContext : Type 0 where
  pub v0 : ℤ
  pub sp : ℕ
  pub ra : ℕ
  pub cp0_status : ℕ
  pub cp0_badvaddr : ℕ
  pub cp0_cause : ℕ
  pub cp0_epc : ℕ

-- What a process does when `do_scheduler` returns to it: the return address and the stack that
-- SAVE_CONTEXT(KERNEL) kept. `enter` is a new process, which goes to user mode at once; `leave` goes
-- back through the end of `system_call_helper`; `acquire m` goes on in the loop of
-- `do_mutex_lock_acquire`, and `timer` in `irq_timer`.
pub data Continuation : Type 0 where
  enter : Continuation
  leave : Continuation
  acquire : ℕ → Continuation
  timer : Continuation

-- `pcb_t`, but for the links `prev` and `next` and the waiting queue, which stand in `Links`, and
-- the stack tops, which nothing reads or writes.
pub record Pcb : Type 0 where
  pub kernel_context : RegsContext
  pub user_context : RegsContext
  pub continuation : Continuation
  pub alarm_time : ℕ
  pub pid : ℤ
  pub type : TaskType
  pub priority : ℕ
  pub status : TaskStatus
  pub cursor_x : ℤ
  pub cursor_y : ℤ
  pub waiting_pcb : ℤ
  pub lock_waiting : Option ℕ
  pub lock_owned : List (Option ℕ)

-- `lock_status_t`
pub data LockStatus : Type 0 where
  unlocked locked : LockStatus

-- `mutex_lock_t`, but for its queue
pub record MutexLock : Type 0 where
  pub status : LockStatus
  pub owner : ℤ

-- `barrier_t`, but for its queue
pub record Barrier : Type 0 where
  pub num_expected : ℤ
  pub num_now : ℤ

-- What the kernel prints.
pub data Message : Type 0 where
  lock_not_acquired : Message
  barrier_wrong : ℤ → ℤ → Message
  semaphore_wrong : Message
  unknown_interrupt : ℕ → ℕ → Message
  process_table : Message
  process_line : ℕ → ℤ → TaskStatus → Message

pub record State : Type 0 where
  pub links : Links
  pub pcb : ℕ → Pcb
  pub current_running : ℕ
  pub process_id : ℤ
  pub next_pid : ℤ
  pub historical_num : ℕ
  pub time_elapsed : ℕ
  pub screen_cursor_x : ℤ
  pub screen_cursor_y : ℤ
  pub mutex : ℕ → MutexLock
  pub semaphore : ℕ → ℤ
  pub barrier : ℕ → Barrier
  pub num_waiting : ℕ → ℤ
  pub printed : List Message

-- `pcb[i].… = …`
abbrev pub set_pcb : ℕ → Pcb → State → State
set_pcb i p s = record s { pcb = update s.pcb i p }

-- `*current_running`
abbrev pub current : State → Pcb
current s = s.pcb s.current_running

abbrev pub set_current : Pcb → State → State
set_current p s = set_pcb s.current_running p s

abbrev pub printk : Message → State → State
printk m s = record s { printed = s.printed ++ m ∷ [] }

abbrev pub is_running : TaskStatus → Bool
is_running running = true
is_running _ = false

-- `status != TASK_BLOCKED && status != TASK_SLEEPING && status != TASK_NOT_EXIST`
abbrev pub may_run : TaskStatus → Bool
may_run blocked = false
may_run sleeping = false
may_run not_exist = false
may_run _ = true

abbrev pub exists : TaskStatus → Bool
exists not_exist = false
exists _ = true

abbrev pub set_mutex : ℕ → MutexLock → State → State
set_mutex m lock s = record s { mutex = update s.mutex m lock }

abbrev pub set_semaphore : ℕ → ℤ → State → State
set_semaphore k v s = record s { semaphore = update s.semaphore k v }

abbrev pub set_barrier : ℕ → Barrier → State → State
set_barrier k b s = record s { barrier = update s.barrier k b }

abbrev pub set_num_waiting : ℕ → ℤ → State → State
set_num_waiting k n s = record s { num_waiting = update s.num_waiting k n }

-- `for (j = start; j < NUM_MAX_TASK; j++) if (pcb[j].pid == pid) break;`, with the rounds left.
unfoldable pub find_pid : ℕ → ℕ → ℤ → State → ℕ
find_pid zero j pid s = j
find_pid (suc n) j pid s =
    let rest = find_pid n (j + 1) pid s in if (s.pcb j).pid ==ℤ pid then j else rest

-- The search of `do_wait`, `do_kill` and `do_mutex_lock_release` from `pcb[2]`, and the test of
-- `pcb[j].pid` behind it, which lies behind the table if no process has the number.
unfoldable pub lookup_pid : ℤ → State → Run ℕ
unfolding find_pid
lookup_pid pid s =
    let j = find_pid (num_max_task - 2) 2 pid s in if ltb j num_max_task then ok j else fault
