-- ===== src/Interrupt/Timer.antt =====
-- The clock and the lock that a process finds when its turn comes again.
use os_prj.Prelude.{ℕ, ◌+◌, ◌%◌, ◌^◌, ◌≤◌, ◌<◌, ◌≡◌, refl, ap, arith, true}
use os_prj.Run.{ok}
use os_prj.Kernel.{MutexLock, Continuation, unlocked, locked, current}
use os_prj.Sched.{get_timer}
use os_prj.Locking.Mutex.Owned.{has_room, IsOwned}
use os_prj.Locking.Mutex.Acquire.{do_mutex_lock_acquire-takes}
use os_prj.Screen.{screen_reflush}
use os_prj.Syscall.{Image, Machine, set_v0}
use os_prj.Interrupt.{irq_timer_rest, acquire_again, resume}

-- The machine after `irq_timer_rest`.
abbrev after_timer : Machine → Machine
after_timer m =
    let k = m.kernel in
    let s =
      screen_reflush
        (record m.screen { cursor_x = k.screen_cursor_x; cursor_y = k.screen_cursor_y }) in
    record m {
      screen = s;
      kernel = record k {
        time_elapsed = (k.time_elapsed + 100000) % 2 ^ 32;
        screen_cursor_x = s.cursor_x;
        screen_cursor_y = s.cursor_y;
      };
    }

module _ (image : Image) (m : Machine) where
  -- A process that the clock had interrupted makes the clock go on: without overflow the clock
  -- stays a word, the coarse timer goes on by one at most, and no process changes.
  pub resume-timer :
      (current m.kernel).continuation ≡ Continuation.timer
      → m.kernel.time_elapsed + 100000 < 2 ^ 32
      → (t : Machine) × (resume image m ≡ ok t)
        × (t.kernel.time_elapsed < 2 ^ 32)
        × (get_timer m.kernel ≤ get_timer t.kernel)
        × (get_timer t.kernel ≤ get_timer m.kernel + 1)
        × (t.kernel.pcb ≡ m.kernel.pcb)
  unfolding resume irq_timer_rest get_timer
  resume-timer here fits =
      let no_wrap : (m.kernel.time_elapsed + 100000) % 2 ^ 32 ≡ m.kernel.time_elapsed + 100000 =
        omega arith in
      (
        after_timer m,
        rw (here, resume) refl,
        omega (arith, no_wrap),
        omega (arith, no_wrap),
        omega (arith, no_wrap),
        refl,
      )

  -- A process that waited for a lock and finds it free gets it and returns to the user program;
  -- tables and locks still agree. The process has a free entry for the lock.
  pub resume-takes :
      (a : ℕ)
      → (current m.kernel).continuation ≡ Continuation.acquire a
      → (m.kernel.mutex a).status ≡ unlocked
      → has_room (current m.kernel).lock_owned ≡ true
      → IsOwned m.kernel
      → (t : Machine) × (resume image m ≡ ok t)
        × ((t.kernel.mutex a).status ≡ locked)
        × ((t.kernel.mutex a).owner ≡ (current m.kernel).pid)
        × IsOwned t.kernel
  unfolding resume acquire_again
  resume-takes a here free room owned =
      let (k, e, lock, _, _, _, agree) = do_mutex_lock_acquire-takes a m.kernel free room owned in
      (
        set_v0 image.leftover (record m { kernel = k }),
        rw (here, resume, free, acquire_again, e) refl,
        ap (λ (x : MutexLock). x.status) lock,
        ap (λ (x : MutexLock). x.owner) lock,
        λ x i high h. ground (arith, agree x i high),
      )
