-- ===== src/System/Handlers.antt =====
-- The handlers in the table of system calls (init/main.c), on an orderly kernel.
use os_prj.Process.{do_kill}
use os_prj.Queue.Represents.{Lists, Represents}
use os_prj.Prelude.{
  ℕ, ◌+◌, ◌%◌, ◌^◌, ◌<◌, ◌≡◌, refl, Bool, true, false, arith, eq_of_==, ℤ, if◌then◌else◌,
}
use mathlib.Core.Path.{subst}
use os_prj.Run.{ok-inj, returned, Run, ok}
use os_prj.Queue.Represents.{num_max_task}
use os_prj.Kernel.{State}
use os_prj.Screen.{
  Screen, screen_write, screen_reflush, screen_write_ch, clear_lines, screen_move_cursor,
}
use os_prj.Sched.{get_timer, do_sleep}
use os_prj.Locking.Mutex.{do_mutex_lock_init, do_mutex_lock_acquire, do_mutex_lock_release}
use os_prj.Locking.Semaphore.{do_semaphore_init, do_semaphore_up, do_semaphore_down}
use os_prj.Locking.Barrier.{do_barrier_init, do_barrier_wait}
use os_prj.Locking.Condition.{
  do_condition_init, do_condition_wait, do_condition_signal, do_condition_broadcast,
}
use os_prj.Locking.Mutex.Owned.{holds}
use os_prj.Process.{process_show, do_spawn, do_wait, do_exit}
use os_prj.Syscall.{Handler, Image, Machine, with_screen, with_kernel, set_v0, int_of, call}
use os_prj.System.Moves.{same-IsOrderly}
use os_prj.System.Counted.{InOrder}
use os_prj.System.Conditions.{do_condition_signal-InOrder, do_condition_broadcast-InOrder}
use os_prj.System.Objects.{
  aside-IsOrderly, do_semaphore_up-InOrder, do_semaphore_down-InOrder, do_barrier_wait-InOrder,
}
use os_prj.System.Mutex.{do_mutex_lock_release-InOrder}
use os_prj.System.Acquire.{do_mutex_lock_acquire-InOrder, do_condition_wait-InOrder}
use os_prj.System.Processes.{do_sleep-InOrder, do_wait-InOrder}
use os_prj.System.Spawn.{do_spawn-InOrder}
use os_prj.System.Exit.{IsKillable, do_kill-InOrder, do_exit-InOrder}
use os_prj.System.Setup.{
  do_semaphore_init-InOrder, do_barrier_init-InOrder, do_condition_init-InOrder,
  do_mutex_lock_init-InOrder, process_show-InOrder,
}

-- A call of the kernel or of the screen that returns did so in its part.
pub with_kernel-InOrder :
    (r : Run State) (m t : Machine)
    → ((s : State) → r ≡ ok s → InOrder s)
    → with_kernel r m ≡ ok t
    → InOrder t.kernel
with_kernel-InOrder r m t good run =
    let (s, e, e') = returned r (λ k. ok (record m { kernel = k })) t run in
    subst (λ (x : Machine). InOrder x.kernel) (ok-inj e') (good s e)

-- A call of the kernel that always returns.
changed-InOrder :
    (u : State) (m t : Machine) → InOrder u → with_kernel (ok u) m ≡ ok t → InOrder t.kernel
changed-InOrder u m t O run = subst (λ (x : Machine). InOrder x.kernel) (ok-inj run) O

pub with_screen-InOrder :
    (f : Screen → Run Screen) (m t : Machine)
    → InOrder m.kernel
    → with_screen f m ≡ ok t
    → InOrder t.kernel
with_screen-InOrder f m t (L, O, N) run =
    let k = m.kernel in
    let after = λ (s : Screen). record m {
      screen = s;
      kernel = record k { screen_cursor_x = s.cursor_x; screen_cursor_y = s.cursor_y };
    } in
    let (s, _, e) =
      returned (f (record m.screen { cursor_x = k.screen_cursor_x; cursor_y = k.screen_cursor_y }))
        (λ s. ok (after s)) t run in
    subst (λ (x : Machine). InOrder x.kernel) (ok-inj e)
      (L, aside-IsOrderly k (after s).kernel L refl refl refl refl refl O, N)

pub set_v0-InOrder : (v : ℤ) (m : Machine) → InOrder m.kernel → InOrder (set_v0 v m).kernel
set_v0-InOrder v m (L, O, N) =
    let me = m.kernel.current_running in
    (
      L,
      same-IsOrderly m.kernel (set_v0 v m).kernel L
          (record {
            current = refl;
            pids = λ a. ground (arith, eq_of_== me a);
            owns = λ a. ground (arith, eq_of_== me a);
            locks = λ k. refl;
            next = refl;
          })
          refl (λ a. ground (arith, eq_of_== me a)) O,
      N,
    )

pub answered-InOrder :
    (over : Bool) (v : ℤ) (m : Machine)
    → InOrder m.kernel
    → InOrder (if over then m else set_v0 v m).kernel
answered-InOrder true v m O = O
answered-InOrder false v m O = set_v0-InOrder v m O

module _ (image : Image) where
  -- The calls that keep the order: an alarm fits into its word, a lock that is set up anew is none that a
  -- process names, and a process that is killed is the caller or stands at an end of a queue.
  abbrev pub IsSafe : Handler → ℕ → State → Type 0
  IsSafe Handler.sleep a s = a + get_timer s < 2 ^ 32
  IsSafe Handler.block a s = ⊥
  IsSafe Handler.unblock_one a s = ⊥
  IsSafe Handler.unblock_all a s = ⊥
  IsSafe Handler.kill a s = (L : Lists) → Represents s.links L → IsKillable (int_of a) s L
  IsSafe Handler.mutex_init a s =
      (i : ℕ) → i < num_max_task → holds (image.mutex_at a) (s.pcb i).lock_owned ≡ false
  IsSafe _ a s = Unit

  module _ (m t : Machine) (O : InOrder m.kernel) (low : 0 < m.kernel.current_running) where
    pub call-InOrder :
        (h : Handler) (a b c : ℕ)
        → IsSafe h a m.kernel
        → call image h a b c m ≡ ok t
        → InOrder t.kernel
    unfolding call
    call-InOrder Handler.sleep a b c safe run =
        with_kernel-InOrder (do_sleep a m.kernel) m t
          (λ s. do_sleep-InOrder m.kernel s O.0 O.1 O.2 low a safe) run
    call-InOrder Handler.block a b c safe run = absurd safe
    call-InOrder Handler.unblock_one a b c safe run = absurd safe
    call-InOrder Handler.unblock_all a b c safe run = absurd safe
    call-InOrder Handler.write a b c safe run =
        with_screen-InOrder (screen_write image.longest_string a m.memory) m t O run
    call-InOrder Handler.reflush a b c safe run =
        with_screen-InOrder (λ s. ok (screen_reflush s)) m t O run
    call-InOrder Handler.write_ch a b c safe run =
        with_screen-InOrder (screen_write_ch (a % 256)) m t O run
    call-InOrder Handler.clear a b c safe run =
        with_screen-InOrder (clear_lines (int_of a) (int_of b)) m t O run
    call-InOrder Handler.cursor a b c safe run =
        with_screen-InOrder (λ s. ok (screen_move_cursor (int_of a) (int_of b) s)) m t O run
    call-InOrder Handler.show_processes a b c safe run =
        changed-InOrder (process_show m.kernel) m t (process_show-InOrder m.kernel O) run
    call-InOrder Handler.spawn a b c safe run =
        with_kernel-InOrder (do_spawn image.handle_int (image.task_at a) m.kernel) m t
          (λ s. do_spawn-InOrder image.handle_int (image.task_at a) m.kernel s O.0 O.1 O.2) run
    call-InOrder Handler.waitpid a b c safe run =
        with_kernel-InOrder (do_wait (int_of a) m.kernel) m t
          (λ s. do_wait-InOrder m.kernel s O.0 O.1 O.2 low (int_of a)) run
    call-InOrder Handler.kill a b c safe run =
        with_kernel-InOrder (do_kill (int_of a) m.kernel) m t
          (λ s. do_kill-InOrder m.kernel s O.0 O.1 O.2 (int_of a) low (safe O.0 O.1.settled.queues))
          run
    call-InOrder Handler.exit a b c safe run =
        with_kernel-InOrder (do_exit m.kernel) m t (λ s. do_exit-InOrder m.kernel s O.0 O.1 O.2) run
    call-InOrder Handler.getpid a b c safe run =
        subst (λ (x : Machine). InOrder x.kernel) (ok-inj run) O
    call-InOrder Handler.mutex_init a b c safe run =
        changed-InOrder (do_mutex_lock_init (image.mutex_at a) m.kernel) m t
          (do_mutex_lock_init-InOrder (image.mutex_at a) m.kernel O.0 O.1 O.2 safe) run
    call-InOrder Handler.mutex_acquire a b c safe run =
        with_kernel-InOrder (do_mutex_lock_acquire (image.mutex_at a) m.kernel) m t
          (λ s. do_mutex_lock_acquire-InOrder (image.mutex_at a) m.kernel s O.0 O.1 O.2 low) run
    call-InOrder Handler.mutex_release a b c safe run =
        with_kernel-InOrder (do_mutex_lock_release (image.mutex_at a) m.kernel) m t
          (λ s. do_mutex_lock_release-InOrder (image.mutex_at a) m.kernel s O.0 O.1 O.2) run
    call-InOrder Handler.sem_init a b c safe run =
        changed-InOrder (do_semaphore_init (image.semaphore_at a) (int_of b) m.kernel) m t
          (do_semaphore_init-InOrder (image.semaphore_at a) m.kernel O.0 O.1 O.2 (int_of b)) run
    call-InOrder Handler.sem_up a b c safe run =
        with_kernel-InOrder (do_semaphore_up (image.semaphore_at a) m.kernel) m t
          (λ s. do_semaphore_up-InOrder (image.semaphore_at a) m.kernel s O.0 O.1 O.2) run
    call-InOrder Handler.sem_down a b c safe run =
        with_kernel-InOrder (do_semaphore_down (image.semaphore_at a) m.kernel) m t
          (λ s. do_semaphore_down-InOrder (image.semaphore_at a) m.kernel s O.0 O.1 O.2 low) run
    call-InOrder Handler.barrier_init a b c safe run =
        changed-InOrder (do_barrier_init (image.barrier_at a) (int_of b) m.kernel) m t
          (do_barrier_init-InOrder (image.barrier_at a) m.kernel O.0 O.1 O.2 (int_of b)) run
    call-InOrder Handler.barrier_wait a b c safe run =
        with_kernel-InOrder (do_barrier_wait (image.barrier_at a) m.kernel) m t
          (λ s. do_barrier_wait-InOrder (image.barrier_at a) m.kernel s O.0 O.1 O.2 low) run
    call-InOrder Handler.cond_init a b c safe run =
        changed-InOrder (do_condition_init (image.condition_at a) m.kernel) m t
          (do_condition_init-InOrder (image.condition_at a) m.kernel O.0 O.1 O.2) run
    call-InOrder Handler.cond_wait a b c safe run =
        with_kernel-InOrder (do_condition_wait (image.mutex_at a) (image.condition_at b) m.kernel) m
          t
          (λ s.
            do_condition_wait-InOrder (image.mutex_at a) m.kernel s O.0 O.1 O.2 low
              (image.condition_at b))
          run
    call-InOrder Handler.cond_signal a b c safe run =
        with_kernel-InOrder (do_condition_signal (image.condition_at a) m.kernel) m t
          (λ s. do_condition_signal-InOrder (image.condition_at a) m.kernel s O.0 O.1 O.2) run
    call-InOrder Handler.cond_broadcast a b c safe run =
        with_kernel-InOrder (do_condition_broadcast (image.condition_at a) m.kernel) m t
          (λ s. do_condition_broadcast-InOrder (image.condition_at a) m.kernel s O.0 O.1 O.2) run
