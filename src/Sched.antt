-- ===== src/Sched.antt =====
-- kernel/sched/sched.c and kernel/sched/time.c, with `do_scheduler` of arch/mips/kernel/entry.S. A
-- call of `do_scheduler` ends the caller's part of a kernel function: what is left of the function is
-- kept as the `continuation` of the process. The loops run on fuel, `num_max_task + 1` rounds.
pub mod Latency
pub mod Unblock
pub mod Sleep
pub mod Schedule
use os_prj.Prelude.{
  ℕ, zero, suc, ◌+◌, ◌-◌, ◌/◌, ◌%◌, ◌^◌, true, false, ◌&&◌, not, none, some, pos, ltb, leb, ◌==◌,
  if◌then◌else◌,
}
use os_prj.Run.{Run, ok, fault, out_of_fuel, ◌>>=◌}
use os_prj.Queue.{
  Ptr, QueueId, sleep, Links, queue_is_empty, queue_push, queue_dequeue, queue_remove,
}
use os_prj.Queue.Represents.{num_max_task}
use os_prj.Kernel.{
  Pcb, TaskStatus, blocked, running, sleeping, Continuation, leave, State, set_pcb, current,
  set_current, is_running, may_run,
}

-- `get_ticks`
unfoldable pub get_ticks : State → ℕ
get_ticks s = s.time_elapsed

-- `get_timer`
unfoldable pub get_timer : State → ℕ
get_timer s = s.time_elapsed / 10000000

-- `status = TASK_READY; priority = 1`
abbrev pub wake : Pcb → Pcb
wake p = record p { status = TaskStatus.ready; priority = 1 }

-- The block `p` of the sleep queue at which the loop stands.
unfoldable pub check_loop : ℕ → Ptr → State → Run State
unfolding get_timer
check_loop zero p s = out_of_fuel
check_loop (suc n) none s = ok s
check_loop (suc n) (some p) s = elim (ltb (s.pcb p).alarm_time (get_timer s)) [
  | true ↦ do
    (nextp, l) ← queue_remove sleep p s.links
    let s = set_pcb p (wake (s.pcb p)) (record s { links = l })
    l ← queue_push (QueueId.ready 0) p s.links
    check_loop n nextp (record s { links = l })
  | false ↦ check_loop n (s.links.next p) s
]

unfoldable pub check_sleeping : State → Run State
check_sleeping s = check_loop (num_max_task + 1) (s.links.queue sleep).head s

-- The cursor of the process is kept, and a running process becomes ready.
unfoldable pub suspend : State → State
suspend s =
    let p = record (current s) { cursor_x = s.screen_cursor_x; cursor_y = s.screen_cursor_y } in
    let p = if is_running p.status then record p { status = TaskStatus.ready } else p in
    set_current p (record s { screen_cursor_x = pos 0; screen_cursor_y = pos 5 })

abbrev pub demoted : ℕ → ℕ
demoted priority = if leb priority 2 then priority + 1 else 3

-- `ready_queue_array + priority - 1`: the array has three queues.
abbrev pub ready_slot : ℕ → Run QueueId
ready_slot priority =
    if ltb 0 priority && leb priority 3 then ok (QueueId.ready (priority - 1)) else fault

-- The process loses priority, and goes to the ready queue of its new priority if it may run.
unfoldable pub requeue : State → Run State
requeue s =
    let p = record (current s) { priority = demoted (current s).priority } in
    let s = set_current p s in
    if not (s.current_running == 0) && may_run (current s).status
    then (do
      q ← ready_slot (current s).priority
      l ← queue_push q s.current_running s.links
      ok (record s { links = l }))
    else ok s

-- The head of the first ready queue that is not empty.
unfoldable pub pick : Links → Run (ℕ × Links)
pick l =
    if not (queue_is_empty (QueueId.ready 0) l)
    then queue_dequeue (QueueId.ready 0) l
    else if not (queue_is_empty (QueueId.ready 1) l)
    then queue_dequeue (QueueId.ready 1) l
    else queue_dequeue (QueueId.ready 2) l

-- The picked process becomes the current one.
unfoldable pub dispatch : ℕ → State → State
dispatch i s =
    let s = record s { current_running = i } in
    let s = set_current (record (current s) { status = running }) s in
    record s {
      process_id = (current s).pid;
      screen_cursor_x = (current s).cursor_x;
      screen_cursor_y = (current s).cursor_y;
    }

unfoldable pub scheduler : State → Run State
scheduler s = do
  s ← check_sleeping (suspend s)
  s ← requeue s
  (i, l) ← pick s.links
  ok (dispatch i (record s { links = l }))

-- SAVE_CONTEXT(KERNEL) keeps where the process goes on, and RESTORE_CONTEXT(KERNEL) loads the new
-- process's place.
unfoldable pub do_scheduler : Continuation → State → Run State
do_scheduler k s = scheduler (set_current (record (current s) { continuation = k }) s)

unfoldable pub do_sleep : ℕ → State → Run State
do_sleep sleep_time s = do
  let alarm = (sleep_time + get_timer s) % 2 ^ 32
  let s = set_current (record (current s) { status = sleeping; alarm_time = alarm }) s
  l ← queue_push sleep s.current_running s.links
  do_scheduler leave (record s { links = l })

unfoldable pub do_block : QueueId → State → Run State
do_block q s = do
  let s = set_current (record (current s) { status = blocked }) s
  l ← queue_push q s.current_running s.links
  ok (record s { links = l })

unfoldable pub do_unblock_one : QueueId → State → Run State
do_unblock_one q s = do
  (i, l) ← queue_dequeue q s.links
  let s = set_pcb i (wake (s.pcb i)) s
  l ← queue_push (QueueId.ready 0) i l
  ok (record s { links = l })

unfoldable pub unblock_loop : ℕ → QueueId → State → Run State
unblock_loop zero q s = out_of_fuel
unblock_loop (suc n) q s = elim (queue_is_empty q s.links) [
  | true ↦ ok s
  | false ↦ do
    (i, l) ← queue_dequeue q s.links
    let s = set_pcb i (wake (s.pcb i)) s
    l ← queue_push (QueueId.ready 0) i l
    unblock_loop n q (record s { links = l })
]

unfoldable pub do_unblock_all : QueueId → State → Run State
do_unblock_all = unblock_loop (num_max_task + 1)
