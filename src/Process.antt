-- ===== src/Process.antt =====
-- The process management of init/main.c: the process table at boot, creating, waiting for, killing and
-- ending a process, and the list that `ps` shows. `handle_int` and `test_shell` are addresses that
-- the linker chooses, and the loops over queues run on fuel, `num_max_task + 1` rounds.
pub mod Table
pub mod Spawn
pub mod Wait
pub mod Locks
pub mod End
pub mod Kill
use os_prj.Prelude.{
  ℕ, zero, suc, ◌+◌, ◌-◌, ◌*◌, ◌%◌, ◌^◌, true, false, ◌&&◌, none, some, ℤ, pos, negsuc, ◌+ℤ◌, ◌==ℤ◌,
  ltb, leb, replicate, get_elem?, if◌then◌else◌,
}
use os_prj.Run.{Run, ok, fault, hang, out_of_fuel, ◌>>=◌}
use os_prj.Queue.{
  Ptr, QueueId, sleep, waiting, of_mutex, Links, queue_init, queue_push, queue_remove,
}
use os_prj.Queue.Represents.{num_max_task}
use os_prj.Kernel.{
  Pcb, RegsContext, TaskStatus, blocked, sleeping, not_exist, TaskType, user_thread, enter, leave,
  State, set_pcb, current, set_current, printk, process_table, process_line, exists, lookup_pid,
}
use os_prj.Sched.{ready_slot, do_scheduler, do_unblock_all}
use os_prj.Locking.Mutex.{do_mutex_lock_release}

-- `task_info_t`, without the name, which the kernel does not use
pub record TaskInfo : Type 0 where
  pub entry_point : ℕ
  pub type : TaskType

-- `MAX_MUTEX_OWN`
abbrev pub max_mutex_own : ℕ
max_mutex_own = 5

abbrev pub init_context : RegsContext → (sp ra epc : ℕ) → RegsContext
init_context r sp ra epc = record r {
  sp = sp;
  ra = ra;
  cp0_status = 0x10008000;
  cp0_badvaddr = 0;
  cp0_cause = 0;
  cp0_epc = epc;
}

-- The assignments that make a block of the table a new process, but for its waiting queue. The return
-- address `handle_int + 0x14` is the end of the interrupt handler, which goes to user mode.
abbrev pub new_pcb :
    Pcb → (handle_int kernel_sp user_sp entry : ℕ) → TaskType → ℤ → (priority : ℕ) → Pcb
new_pcb p handle_int kernel_sp user_sp entry type pid priority = record p {
  kernel_context = init_context p.kernel_context kernel_sp (handle_int + 0x14) entry;
  user_context = init_context p.user_context user_sp entry entry;
  continuation = enter;
  type = type;
  pid = pid;
  status = TaskStatus.ready;
  priority = priority;
  lock_waiting = none;
  waiting_pcb = negsuc 0;
  lock_owned = replicate max_mutex_own none;
}

-- The assignments of `init_pcb` to the queues and the table.
unfoldable pub boot_table : (handle_int test_shell : ℕ) → State → State
boot_table handle_int test_shell s =
    let l = queue_init (QueueId.ready 0) s.links in
    let l = queue_init (QueueId.ready 1) l in
    let l = queue_init (QueueId.ready 2) l in
    let l = queue_init sleep l in
    let s = record s {
      links = queue_init (waiting 1) l;
      current_running = 0;
      pcb = λ i.
          if leb 2 i && ltb i num_max_task
          then record (s.pcb i) { status = not_exist }
          else s.pcb i;
    } in
    set_pcb 1
      (new_pcb (s.pcb 1) handle_int (0xa0f00000 + 0x10000) (0xa0f00000 + 0x10000 - 0x01000)
        test_shell user_thread (pos 1) 3)
      s

unfoldable pub init_pcb : (handle_int test_shell : ℕ) → State → Run State
unfolding boot_table
init_pcb handle_int test_shell s = do
  let s = boot_table handle_int test_shell s
  l ← queue_push (QueueId.ready 2) 1 s.links
  ok (record s { links = l; next_pid = pos 2; historical_num = 1 })

-- `for (i = 2; i < NUM_MAX_TASK && pcb[i].status != TASK_NOT_EXIST; i++);`, with the rounds left.
unfoldable pub find_spare : ℕ → ℕ → State → ℕ
find_spare zero i s = i
find_spare (suc n) i s =
    let rest = find_spare n (i + 1) s in if exists (s.pcb i).status then rest else i

-- The stack pointers of the process that is created after `n` others.
abbrev pub kernel_sp : ℕ → ℕ
kernel_sp n = (0xa0f00000 + 0x10000 * (n + 1)) % 2 ^ 32

abbrev pub user_sp : ℕ → ℕ
user_sp n = (0xa0f00000 + 0x10000 * (n + 1) + 2 ^ 32 - (0x01000 * (n + 1)) % 2 ^ 32) % 2 ^ 32

-- The block `pcb[i]` becomes the new process.
unfoldable pub spawn_at : ℕ → (handle_int : ℕ) → TaskInfo → State → Run State
spawn_at i handle_int info s = do
  let n = s.historical_num
  let p =
      new_pcb (s.pcb i) handle_int (kernel_sp n) (user_sp n) info.entry_point info.type s.next_pid 1
  let s = set_pcb i p (record s { next_pid = s.next_pid +ℤ pos 1 })
  l ← queue_push (QueueId.ready 0) i (queue_init (waiting i) s.links)
  do_scheduler leave (record s { links = l; historical_num = n + 1 })

unfoldable pub do_spawn : (handle_int : ℕ) → TaskInfo → State → Run State
do_spawn handle_int info s =
    let i = find_spare (num_max_task - 2) 2 s in
    if ltb i num_max_task then spawn_at i handle_int info s else hang

unfoldable pub do_wait : ℤ → State → Run State
do_wait pid s = do
  let s = set_current (record (current s) { status = blocked }) s
  i ← lookup_pid pid s
  l ← queue_push (waiting i) s.current_running s.links
  let s = record s { links = l }
  do_scheduler leave (set_current (record (current s) { waiting_pcb = pid }) s)

-- `for (temp_pcb = …; temp_pcb != NULL; temp_pcb = temp_pcb->next)`: the blocks of the queue with the
-- number `pid` leave it.
unfoldable pub remove_pid : ℕ → QueueId → ℤ → (ℕ → Pcb) → Ptr → Links → Run Links
remove_pid zero q pid pcb temp l = out_of_fuel
remove_pid (suc n) q pid pcb none l = ok l
remove_pid (suc n) q pid pcb (some t) l = elim ((pcb t).pid ==ℤ pid) [
  | true ↦ do (_, l) ← queue_remove q t l; remove_pid n q pid pcb (l.next t) l
  | false ↦ remove_pid n q pid pcb (l.next t) l
]

unfoldable pub remove_from : QueueId → ℤ → State → Run State
remove_from q pid s = do
  l ← remove_pid (num_max_task + 1) q pid s.pcb (s.links.queue q).head s.links
  ok (record s { links = l })

-- A process that is blocked but waits neither for a lock nor for a process stops the kernel.
unfoldable pub leave_block : ℤ → Pcb → State → Run State
leave_block pid p s = elim p.lock_waiting [
  | some m ↦ remove_from (of_mutex m) pid s
  | none ↦
      if p.waiting_pcb ==ℤ negsuc 0
      then hang
      else (do j ← lookup_pid p.waiting_pcb s; remove_from (waiting j) pid s)
]

-- The killed process leaves the queue that its status speaks of.
unfoldable pub leave_queues : ℤ → Pcb → State → Run State
leave_queues pid p s = elim p.status [
  | TaskStatus.ready ↦ do q ← ready_slot p.priority; remove_from q pid s
  | blocked ↦ leave_block pid p s
  | sleeping ↦ remove_from sleep pid s
  | _ ↦ ok s
]

-- The processes of a waiting queue wait for nothing any more.
unfoldable pub forget_wait : ℕ → Ptr → State → Run State
forget_wait zero temp s = out_of_fuel
forget_wait (suc n) none s = ok s
forget_wait (suc n) (some t) s =
    forget_wait n (s.links.next t) (set_pcb t (record (s.pcb t) { waiting_pcb = negsuc 0 }) s)

-- `for (j = 0; j < MAX_MUTEX_OWN; j++)`, with the rounds left: the locks of `pcb[i]` are released.
unfoldable pub release_locks : ℕ → ℕ → ℕ → State → Run State
release_locks zero j i s = ok s
release_locks (suc n) j i s = elim (get_elem? (s.pcb i).lock_owned j) [
  | none ↦ fault
  | some none ↦ release_locks n (j + 1) i s
  | some (some m) ↦ do s ← do_mutex_lock_release m s; release_locks n (j + 1) i s
]

-- The common end of `do_kill` and `do_exit` before `do_scheduler`, for the process in `pcb[i]`.
unfoldable pub end_process : ℕ → State → Run State
end_process i s = do
  let s = set_pcb i (record (s.pcb i) { status = not_exist }) s
  s ← forget_wait (num_max_task + 1) (s.links.queue (waiting i)).head s
  s ← do_unblock_all (waiting i) s
  release_locks max_mutex_own 0 i s

unfoldable pub do_kill : ℤ → State → Run State
do_kill pid s = do
  i ← lookup_pid pid s
  s ← leave_queues pid (s.pcb i) s
  s ← end_process i s
  do_scheduler leave s

unfoldable pub do_exit : State → Run State
do_exit s = do s ← end_process s.current_running s; do_scheduler leave s

unfoldable pub do_getpid : State → ℤ
do_getpid s = (current s).pid

-- The lines for `pcb[i]` and up, with the rounds left; `num` processes are listed above.
unfoldable pub show_from : ℕ → ℕ → ℕ → State → State
show_from zero i num s = s
show_from (suc n) i num s =
    let p = s.pcb i in
    let line =
      printk (process_line num p.pid p.status)
        (record s { screen_cursor_y = s.screen_cursor_y +ℤ pos 1 }) in
    show_from n (i + 1) (if exists p.status then num + 1 else num)
      (if exists p.status then line else s)

unfoldable pub process_show : State → State
process_show s =
    let s = show_from (num_max_task - 1) 1 0 (printk process_table s) in
    record s { screen_cursor_y = s.screen_cursor_y +ℤ pos 1 }
