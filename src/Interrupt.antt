-- ===== src/Interrupt.antt =====
-- kernel/irq/irq.c: the interrupt handler, and what a process does when its turn comes again.
pub mod Timer
use os_prj.Prelude.{ℕ, ◌+◌, ◌*◌, ◌/◌, ◌%◌, ◌^◌, Bool, true, false, ◌==◌, if◌then◌else◌}
use os_prj.Run.{Run, ok, ◌>>=◌}
use os_prj.Screen.{Screen, screen_reflush}
use os_prj.Kernel.{
  State, Continuation, LockStatus, locked, unlocked, current, printk, unknown_interrupt,
}
use os_prj.Sched.{do_scheduler}
use os_prj.Locking.Mutex.{do_mutex_lock_acquire}
use os_prj.Syscall.{Image, Machine, with_kernel, with_screen, set_v0}

-- `irq_timer` up to `do_scheduler`; the rest is done when the process goes on.
unfoldable pub irq_timer : Machine → Run Machine
irq_timer m = with_kernel (do_scheduler Continuation.timer m.kernel) m

-- `time_elapsed += 100000; screen_reflush()`
unfoldable pub irq_timer_rest : Machine → Run Machine
irq_timer_rest m = do
  let k = m.kernel
  with_screen (λ s. ok (screen_reflush s))
      (record m { kernel = record k { time_elapsed = (k.time_elapsed + 100000) % 2 ^ 32 } })

-- `cause & 0x0000ff00`
abbrev pub event_of : ℕ → ℕ
event_of cause = cause / 256 % 256 * 256

unfoldable pub interrupt_helper : (cause : ℕ) → Machine → Run Machine
interrupt_helper cause m =
    if event_of cause == 0x8000
    then irq_timer m
    else ok (record m { kernel = printk (unknown_interrupt (event_of cause) cause) m.kernel })

module _ (image : Image) where
  -- The loop of `do_mutex_lock_acquire`, entered again by the process that `do_scheduler` returned to:
  -- it either waits again or returns to `system_call_helper`.
  unfoldable pub acquire_again : ℕ → Machine → Run Machine
  acquire_again a m = elim (m.kernel.mutex a).status [
    | locked ↦ with_kernel (do_mutex_lock_acquire a m.kernel) m
    | unlocked ↦ do
      m' ← with_kernel (do_mutex_lock_acquire a m.kernel) m
      ok (set_v0 image.leftover m')
  ]

  -- What the current process does behind `do_scheduler`, until it is in user mode or calls
  -- `do_scheduler` again.
  unfoldable pub resume : Machine → Run Machine
  resume m = elim (current m.kernel).continuation [
    | Continuation.enter ↦ ok m
    | Continuation.leave ↦ ok (set_v0 image.leftover m)
    | Continuation.acquire a ↦ acquire_again a m
    | Continuation.timer ↦ irq_timer_rest m
  ]
