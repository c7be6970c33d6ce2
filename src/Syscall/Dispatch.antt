-- ===== src/Syscall/Dispatch.antt =====
-- What a system call does.
use os_prj.Prelude.{ℕ, ◌%◌, ◌≡◌, refl, true, false, ◌&&◌, ℤ, pos, leb_ℤ, ltb_ℤ, ◌+ℤ◌, ==_self}
use os_prj.Run.{Run, ok, hang, ◌>>=◌}
use os_prj.Kernel.{State, Continuation, leave, locked, unlocked, current}
use os_prj.Screen.{
  Screen, screen_write, screen_reflush, screen_write_ch, clear_lines, screen_move_cursor,
}
use os_prj.Sched.{do_sleep, do_block, do_unblock_one, do_unblock_all}
use os_prj.Locking.Mutex.{do_mutex_lock_init, do_mutex_lock_acquire, do_mutex_lock_release}
use os_prj.Locking.Semaphore.{do_semaphore_init, do_semaphore_up, do_semaphore_down}
use os_prj.Locking.Barrier.{do_barrier_init, do_barrier_wait}
use os_prj.Locking.Condition.{
  do_condition_init, do_condition_wait, do_condition_signal, do_condition_broadcast,
}
use os_prj.Process.{do_spawn, do_wait, do_kill, do_exit, do_getpid, process_show}
use os_prj.Syscall.{
  Image, Machine, num_syscalls, init_syscall, int_of, with_kernel, with_screen, call, hands_over,
  set_v0, system_call_helper,
}
use os_prj.Syscall.Outcome.{
  Switches, Stays, both_changes, do_mutex_lock_init-Stays, do_barrier_init-Stays,
  do_condition_init-Stays, do_sleep-Switches, do_spawn-Switches, do_wait-Switches, do_kill-Switches,
  do_exit-Switches, do_semaphore_up-Switches, do_semaphore_down-Switches,
  do_condition_wait-Switches, locked-Switches, unlocked-Stays, few-Switches, many-Stays,
  do_block-Stays, do_unblock_one-Stays, do_unblock_all-Stays, do_mutex_lock_release-Stays,
  do_condition_signal-Stays, do_condition_broadcast-Stays, process_show-Stays,
  do_semaphore_init-Stays,
}
use os_prj.Syscall.Wrappers.{
  Call, sys_sleep, sys_block, sys_unblock_one, sys_unblock_all, sys_write, sys_write_ch,
  sys_reflush, sys_clear, sys_move_cursor, sys_process_show, mutex_lock_init, mutex_lock_acquire,
  mutex_lock_release, sys_spawn, sys_kill, sys_exit, sys_waitpid, sys_getpid, semaphore_init,
  semaphore_up, semaphore_down, barrier_init, barrier_wait, condition_init, condition_wait,
  condition_signal, condition_broadcast,
}

module _ (image : Image) (m : Machine) where
  -- The kernel's side of a call.
  abbrev pub trap : Call → Run Machine
  trap c = system_call_helper image c.fn c.arg1 c.arg2 c.arg3 m

  -- The call runs the kernel function `r`, which ends in the scheduler: the caller goes on at `k`.
  abbrev pub Hands : Call → Continuation → Run State → Type 0
  Hands c k r = (trap c ≡ (do t ← r; ok (record m { kernel = t }))) × Switches k r

  -- The call runs the kernel function `r`, which comes back to the caller, and the caller gets the
  -- result `v`.
  abbrev pub Answers : Call → ℤ → Run State → Type 0
  Answers c v r = (trap c ≡ (do t ← r; ok (set_v0 v (record m { kernel = t })))) × Stays m.kernel r

  -- The call runs the function `f` of the screen on the cursor that the kernel keeps, and comes back
  -- to the caller.
  abbrev pub Draws : Call → (Screen → Run Screen) → Type 0
  Draws c f = trap c ≡ (do
    let k = m.kernel
    s ← f (record m.screen { cursor_x = k.screen_cursor_x; cursor_y = k.screen_cursor_y })
    let k = record k { screen_cursor_x = s.cursor_x; screen_cursor_y = s.cursor_y }
    ok (set_v0 image.leftover (record m { screen = s; kernel = k })))

  handed :
      (r : Run State) → (with_kernel r m >>= λ u. ok u) ≡ (do t ← r; ok (record m { kernel = t }))
  handed r = both_changes r (λ t. record m { kernel = t }) λ u. u

  answered :
      (v : ℤ) (r : Run State)
      → (with_kernel r m >>= λ u. ok (set_v0 v u))
        ≡ (do t ← r; ok (set_v0 v (record m { kernel = t })))
  answered v r = both_changes r (λ t. record m { kernel = t }) (set_v0 v)

  drawn :
      (f : Screen → Run Screen)
      → (with_screen f m >>= λ u. ok (set_v0 image.leftover u)) ≡ (do
        let k = m.kernel
        s ← f (record m.screen { cursor_x = k.screen_cursor_x; cursor_y = k.screen_cursor_y })
        let k = record k { screen_cursor_x = s.cursor_x; screen_cursor_y = s.cursor_y }
        ok (set_v0 image.leftover (record m { screen = s; kernel = k })))
  drawn f =
      let k = m.kernel in
      both_changes
        (f (record m.screen { cursor_x = k.screen_cursor_x; cursor_y = k.screen_cursor_y }))
        (λ s. record m {
          screen = s;
          kernel = record k { screen_cursor_x = s.cursor_x; screen_cursor_y = s.cursor_y };
        })
        (set_v0 image.leftover)

  -- Every function of kernel/syscall/syscall.c for user programs makes `system_call_helper` run
  -- the kernel function of its name, on its arguments in order. Sleeping, creating, awaiting and
  -- ending processes, both semaphore operations, `condition_wait`, the acquisition of a locked
  -- lock and `barrier_wait` that does not exceed the expected number end in the scheduler, which
  -- keeps where the caller goes on, and set no result. All other calls leave the caller the
  -- current process and set its result, which is its number for `sys_getpid`.
  pub system_call_helper-Answers :
      (x y : ℕ)
      → let s = m.kernel in
        let v = image.leftover in
        let lock = image.mutex_at x in
        let b = s.barrier (image.barrier_at x) in
        Hands (sys_sleep x) leave (do_sleep x s)
        × Hands (sys_spawn x) leave (do_spawn image.handle_int (image.task_at x) s)
        × Hands (sys_waitpid x) leave (do_wait (int_of x) s)
        × Hands (sys_kill x) leave (do_kill (int_of x) s)
        × Hands sys_exit leave (do_exit s)
        × Hands (semaphore_up x) leave (do_semaphore_up (image.semaphore_at x) s)
        × Hands (semaphore_down x) leave (do_semaphore_down (image.semaphore_at x) s)
        × Hands
            (condition_wait x y)
            (Continuation.acquire lock)
            (do_condition_wait lock (image.condition_at y) s)
        × ((s.mutex lock).status ≡ locked
            → Hands
                (mutex_lock_acquire x)
                (Continuation.acquire lock)
                (do_mutex_lock_acquire lock s))
        × ((s.mutex lock).status ≡ unlocked
            → Answers (mutex_lock_acquire x) v (do_mutex_lock_acquire lock s))
        × (leb_ℤ (b.num_now +ℤ pos 1) b.num_expected ≡ true
            → Hands (barrier_wait x) leave (do_barrier_wait (image.barrier_at x) s))
        × (leb_ℤ (b.num_now +ℤ pos 1) b.num_expected ≡ false
            → Answers (barrier_wait x) v (do_barrier_wait (image.barrier_at x) s))
        × Answers (sys_block x) v (do_block (image.queue_at x) s)
        × Answers (sys_unblock_one x) v (do_unblock_one (image.queue_at x) s)
        × Answers (sys_unblock_all x) v (do_unblock_all (image.queue_at x) s)
        × Answers (mutex_lock_release x) v (do_mutex_lock_release lock s)
        × Answers (condition_signal x) v (do_condition_signal (image.condition_at x) s)
        × Answers (condition_broadcast x) v (do_condition_broadcast (image.condition_at x) s)
        × Answers (mutex_lock_init x) v (ok (do_mutex_lock_init lock s))
        × Answers
            (semaphore_init x y)
            v
            (ok (do_semaphore_init (image.semaphore_at x) (int_of y) s))
        × Answers (barrier_init x y) v (ok (do_barrier_init (image.barrier_at x) (int_of y) s))
        × Answers (condition_init x) v (ok (do_condition_init (image.condition_at x) s))
        × Answers sys_process_show v (ok (process_show s))
        × Answers sys_getpid (current s).pid (ok s)
        × Draws (sys_write x) (screen_write image.longest_string x m.memory)
        × Draws (sys_write_ch x) (screen_write_ch (x % 256))
        × Draws sys_reflush (λ d. ok (screen_reflush d))
        × Draws (sys_clear x y) (clear_lines (int_of x) (int_of y))
        × Draws (sys_move_cursor x y) (λ d. ok (screen_move_cursor (int_of x) (int_of y) d))
  unfolding system_call_helper init_syscall call hands_over do_getpid
  system_call_helper-Answers x y =
      let s = m.kernel in
      let lock = image.mutex_at x in
      let v = image.leftover in
      let cond = image.condition_at x in
      (
        (handed (do_sleep x s), do_sleep-Switches x s),
        (
          handed (do_spawn image.handle_int (image.task_at x) s),
          do_spawn-Switches image.handle_int (image.task_at x) s,
        ),
        (handed (do_wait (int_of x) s), do_wait-Switches (int_of x) s),
        (handed (do_kill (int_of x) s), do_kill-Switches (int_of x) s),
        (handed (do_exit s), do_exit-Switches s),
        (
          handed (do_semaphore_up (image.semaphore_at x) s),
          do_semaphore_up-Switches (image.semaphore_at x) s,
        ),
        (
          handed (do_semaphore_down (image.semaphore_at x) s),
          do_semaphore_down-Switches (image.semaphore_at x) s,
        ),
        (
          handed (do_condition_wait lock (image.condition_at y) s),
          do_condition_wait-Switches lock (image.condition_at y) s,
        ),
        λ taken. (rw taken (handed (do_mutex_lock_acquire lock s)), locked-Switches lock s taken),
        λ free. (rw free (answered v (do_mutex_lock_acquire lock s)), unlocked-Stays lock s free),
        λ few. (
          rw few (handed (do_barrier_wait (image.barrier_at x) s)),
          few-Switches (image.barrier_at x) s few,
        ),
        λ many. (
          rw many (answered v (do_barrier_wait (image.barrier_at x) s)),
          many-Stays (image.barrier_at x) s many,
        ),
        (answered v (do_block (image.queue_at x) s), do_block-Stays (image.queue_at x) s),
        (
          answered v (do_unblock_one (image.queue_at x) s),
          do_unblock_one-Stays (image.queue_at x) s,
        ),
        (
          answered v (do_unblock_all (image.queue_at x) s),
          do_unblock_all-Stays (image.queue_at x) s,
        ),
        (answered v (do_mutex_lock_release lock s), do_mutex_lock_release-Stays lock s),
        (answered v (do_condition_signal cond s), do_condition_signal-Stays cond s),
        (answered v (do_condition_broadcast cond s), do_condition_broadcast-Stays cond s),
        (refl, do_mutex_lock_init-Stays lock s),
        (refl, do_semaphore_init-Stays (image.semaphore_at x) (int_of y) s),
        (refl, do_barrier_init-Stays (image.barrier_at x) (int_of y) s),
        (refl, do_condition_init-Stays cond s),
        (refl, process_show-Stays s),
        (refl, refl),
        drawn (screen_write image.longest_string x m.memory),
        drawn (screen_write_ch (x % 256)),
        drawn (λ d. ok (screen_reflush d)),
        drawn (clear_lines (int_of x) (int_of y)),
        drawn (λ d. ok (screen_move_cursor (int_of x) (int_of y) d)),
      )

  -- `sys_getpid` gives the caller its own number, and changes nothing else.
  pub system_call_helper-getpid :
      (t : Machine) × (trap sys_getpid ≡ ok t)
      × ((current t.kernel).user_context.v0 ≡ (current m.kernel).pid)
      × (t ≡ set_v0 (current m.kernel).pid m)
  unfolding system_call_helper init_syscall call hands_over do_getpid
  system_call_helper-getpid =
      (set_v0 (current m.kernel).pid m, refl, rw (==_self m.kernel.current_running) refl, refl)

  -- A number outside the table stops the kernel.
  pub system_call_helper-hang :
      (fn : ℤ) (x y z : ℕ)
      → (leb_ℤ (pos 0) fn && ltb_ℤ fn (pos num_syscalls)) ≡ false
      → system_call_helper image fn x y z m ≡ hang
  unfolding system_call_helper
  system_call_helper-hang fn x y z outside = rw outside refl
