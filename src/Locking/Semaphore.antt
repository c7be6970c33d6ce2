-- ===== src/Locking/Semaphore.antt =====
-- kernel/locking/sem.c: counting semaphores.
pub mod Balance
use os_prj.Prelude.{ℤ, pos, leb_ℤ, ltb_ℤ, ◌+ℤ◌, ◌-ℤ◌, ℕ, if◌then◌else◌}
use os_prj.Run.{Run, ok, ◌>>=◌}
use os_prj.Queue.{of_semaphore, queue_init}
use os_prj.Kernel.{State, leave, set_semaphore, printk, semaphore_wrong}
use os_prj.Sched.{do_block, do_unblock_one, do_scheduler}

unfoldable pub do_semaphore_init : ℕ → ℤ → State → State
do_semaphore_init k val s =
    if leb_ℤ (pos 0) val
    then set_semaphore k val (record s { links = queue_init (of_semaphore k) s.links })
    else printk semaphore_wrong s

-- `do_semaphore_up` before it gives up the processor.
unfoldable pub raise : ℕ → State → Run State
raise k s =
    let s = set_semaphore k (s.semaphore k +ℤ pos 1) s in
    if leb_ℤ (s.semaphore k) (pos 0) then do_unblock_one (of_semaphore k) s else ok s

unfoldable pub do_semaphore_up : ℕ → State → Run State
do_semaphore_up k s = do s ← raise k s; do_scheduler leave s

-- `do_semaphore_down` before it gives up the processor.
unfoldable pub lower : ℕ → State → Run State
lower k s =
    let s = set_semaphore k (s.semaphore k -ℤ pos 1) s in
    if ltb_ℤ (s.semaphore k) (pos 0) then do_block (of_semaphore k) s else ok s

unfoldable pub do_semaphore_down : ℕ → State → Run State
do_semaphore_down k s = do s ← lower k s; do_scheduler leave s
