-- ===== src/Locking/Barrier.antt =====
-- kernel/locking/barrier.c: a barrier that opens when the expected number of processes waits at it.
pub mod Rounds
use os_prj.Prelude.{ℤ, pos, ltb_ℤ, ◌==ℤ◌, ◌+ℤ◌, ℕ, if◌then◌else◌}
use os_prj.Run.{Run, ok, ◌>>=◌}
use os_prj.Queue.{of_barrier, queue_init}
use os_prj.Kernel.{State, Barrier, leave, set_barrier, printk, barrier_wrong}
use os_prj.Sched.{do_block, do_unblock_all, do_scheduler}

unfoldable pub do_barrier_init : ℕ → ℤ → State → State
do_barrier_init k goal s =
    set_barrier k (record { num_expected = goal; num_now = pos 0 })
      (record s { links = queue_init (of_barrier k) s.links })

-- One more process has come.
abbrev pub arrive : ℕ → State → State
arrive k s = set_barrier k (record (s.barrier k) { num_now = (s.barrier k).num_now +ℤ pos 1 }) s

unfoldable pub do_barrier_wait : ℕ → State → Run State
do_barrier_wait k s =
    let s = arrive k s in
    let b = s.barrier k in
    if ltb_ℤ b.num_now b.num_expected
    then (do s ← do_block (of_barrier k) s; do_scheduler leave s)
    else if b.num_now ==ℤ b.num_expected
    then (do
      s ← do_unblock_all (of_barrier k) s
      do_scheduler leave (set_barrier k (record (s.barrier k) { num_now = pos 0 }) s))
    else ok (printk (barrier_wrong b.num_expected b.num_now) s)
