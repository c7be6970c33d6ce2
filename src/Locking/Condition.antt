-- ===== src/Locking/Condition.antt =====
-- kernel/locking/cond.c: condition variables.
pub mod Waiters
use os_prj.Prelude.{ℤ, pos, ltb_ℤ, ◌==ℤ◌, ◌+ℤ◌, ◌-ℤ◌, ℕ, if◌then◌else◌}
use os_prj.Run.{Run, ok, ◌>>=◌}
use os_prj.Queue.{of_condition, queue_init}
use os_prj.Kernel.{State, Continuation, current, set_num_waiting, printk, lock_not_acquired}
use os_prj.Sched.{do_block, do_unblock_one, do_unblock_all, do_scheduler}
use os_prj.Locking.Mutex.{do_mutex_lock_release}

unfoldable pub do_condition_init : ℕ → State → State
do_condition_init k s =
    set_num_waiting k (pos 0) (record s { links = queue_init (of_condition k) s.links })

-- The part before `do_scheduler`; a caller that does not own the lock gets a message only. The
-- process goes on in `do_mutex_lock_acquire`.
unfoldable pub do_condition_wait : ℕ → ℕ → State → Run State
do_condition_wait m k s = do
  let s = if (s.mutex m).owner ==ℤ (current s).pid then s else printk lock_not_acquired s
  s ← do_block (of_condition k) (set_num_waiting k (s.num_waiting k +ℤ pos 1) s)
  s ← do_mutex_lock_release m s
  do_scheduler (Continuation.acquire m) s

unfoldable pub do_condition_signal : ℕ → State → Run State
do_condition_signal k s =
    if ltb_ℤ (pos 0) (s.num_waiting k)
    then (do
      s ← do_unblock_one (of_condition k) s
      ok (set_num_waiting k (s.num_waiting k -ℤ pos 1) s))
    else ok s

unfoldable pub do_condition_broadcast : ℕ → State → Run State
do_condition_broadcast k s =
    if ltb_ℤ (pos 0) (s.num_waiting k)
    then (do s ← do_unblock_all (of_condition k) s; ok (set_num_waiting k (pos 0) s))
    else ok s
