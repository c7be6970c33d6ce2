-- ===== src/Tests/Devices.antt =====
-- The theorems on libs/string.c, drivers/screen.c, kernel/syscall/syscall.c and kernel/irq/irq.c, tried
-- on small machines.
use os_prj.Prelude.{
  ℕ, false, inr, ◌+◌, ◌-◌, ◌*◌, ◌≡◌, refl, [], ◌∷◌, arith, inl, ◌==◌, if◌then◌else◌, pos, true, ◌%◌,
  leb_ℤ, ◌+ℤ◌,
}
use os_prj.Run.{ok}
use os_prj.Queue.{QueueId}
use os_prj.Text.Strcpy.{strcpy-copies}
use os_prj.Text.{Memory, strcpy, memcpy, streq, strrev}
use os_prj.Text.Copy.{within, memcpy-copies, mirrored, strrev-mirrored}
use os_prj.Text.Compare.{IsString, streq-list_eq}
use os_prj.Kernel.{Continuation, leave, locked, unlocked, current, user_process, blocked}
use os_prj.Screen.{
  screen_scroll, Screen, screen_write, screen_reflush, screen_write_ch, clear_lines,
  screen_move_cursor,
}
use os_prj.Sched.{do_sleep, do_block, do_unblock_one, do_unblock_all}
use os_prj.Locking.Mutex.{do_mutex_lock_init, do_mutex_lock_acquire, do_mutex_lock_release}
use os_prj.Locking.Semaphore.{do_semaphore_init, do_semaphore_up, do_semaphore_down}
use os_prj.Locking.Barrier.{do_barrier_init, do_barrier_wait}
use os_prj.Locking.Condition.{
  do_condition_init, do_condition_wait, do_condition_signal, do_condition_broadcast,
}
use os_prj.Process.{do_spawn, do_wait, do_kill, do_exit, process_show}
use os_prj.Screen.Cursor.{IsOn, screen_write-IsOn}
use os_prj.Screen.Scroll.{screen_scroll-shifted}
use os_prj.Syscall.{Image, Machine, int_of}
use os_prj.Syscall.Wrappers.{
  barrier_init, barrier_wait, condition_broadcast, condition_init, condition_signal, condition_wait,
  mutex_lock_acquire, mutex_lock_init, mutex_lock_release, semaphore_down, semaphore_init,
  semaphore_up, sys_block, sys_clear, sys_exit, sys_getpid, sys_kill, sys_move_cursor,
  sys_process_show, sys_reflush, sys_sleep, sys_spawn, sys_unblock_all, sys_unblock_one,
  sys_waitpid, sys_write, sys_write_ch,
}
use os_prj.Syscall.Dispatch.{Hands, Answers, Draws, system_call_helper-Answers}
use os_prj.Tests.{no_links, kernel}

-- "hi" at 100 and "ho" at 200
abbrev pub words : Memory
words a =
    if a == 100
    then 104
    else if a == 101
    then 105
    else if a == 200
    then 104
    else if a == 201
    then 111
    else 0

memcpy-copies_example :
    memcpy 2 99 100 words 99 ≡ (if within 99 2 99 then words (100 + (99 - 99)) else words 99)
memcpy-copies_example = memcpy-copies 2 99 100 words (inl (omega arith)) 99

strrev-mirrored_example : strrev 100 2 words 100 ≡ mirrored 100 (100 + 2 - 1) words 100
strrev-mirrored_example = strrev-mirrored 100 2 words 100 (omega arith)

pub hi-IsString : IsString words 100 (104 ∷ 105 ∷ [])
hi-IsString = (refl, refl, (refl, refl, refl))

pub ho-IsString : IsString words 200 (104 ∷ 111 ∷ [])
ho-IsString = (refl, refl, (refl, refl, refl))

streq-list_eq_example : streq 5 100 200 words ≡ ok (pos 0)
streq-list_eq_example =
    streq-list_eq (104 ∷ 105 ∷ []) (104 ∷ 111 ∷ []) 5 100 200 words hi-IsString ho-IsString
      (omega arith)

-- A screen full of stars of which nothing was sent, with the cursor at the end of its last line.
abbrev stars : Screen
stars = record {
  cursor_x = pos 79;
  cursor_y = pos 29;
  new_screen = λ k. 42;
  old_screen = λ k. 0;
  port = [];
}

screen_write-IsOn_example : (t : Screen) × (screen_write 5 100 words stars ≡ ok t) × IsOn t
screen_write-IsOn_example =
    screen_write-IsOn (104 ∷ 105 ∷ []) 5 100 words stars hi-IsString (omega arith)
      (79, 29, refl, refl, omega arith, omega arith)

screen_scroll-shifted_example :
    ((screen_scroll 16 29 stars).new_screen 2330 ≡ (
      if within (16 * 80) ((29 + 1 - 16) * 80) 2330
      then (if within (29 * 80) 80 2330 then 32 else 42)
      else 42))
    × ((screen_scroll 16 29 stars).old_screen 2330
        ≡ (if within (16 * 80) ((29 + 1 - 16) * 80) 2330 then 0 else stars.old_screen 2330))
screen_scroll-shifted_example = screen_scroll-shifted 16 29 stars 2330 (omega arith)

abbrev pub image : Image
image = record {
  queue_at = λ a. QueueId.of_condition a;
  mutex_at = λ a. a;
  semaphore_at = λ a. a;
  barrier_at = λ a. a;
  condition_at = λ a. a;
  task_at = λ a. record { entry_point = a; type = user_process };
  handle_int = 0xa0801000;
  leftover = pos 0;
  longest_string = 100;
}

abbrev pub machine : Machine
machine = record { kernel = kernel no_links blocked; screen = stars; memory = words }

system_call_helper-Answers_example :
    let s = machine.kernel in
    let v = image.leftover in
    let lock = image.mutex_at 5 in
    let b = s.barrier (image.barrier_at 5) in
    Hands image machine (sys_sleep 5) leave (do_sleep 5 s)
    × Hands image machine (sys_spawn 5) leave (do_spawn image.handle_int (image.task_at 5) s)
    × Hands image machine (sys_waitpid 5) leave (do_wait (int_of 5) s)
    × Hands image machine (sys_kill 5) leave (do_kill (int_of 5) s)
    × Hands image machine sys_exit leave (do_exit s)
    × Hands image machine (semaphore_up 5) leave (do_semaphore_up (image.semaphore_at 5) s)
    × Hands image machine (semaphore_down 5) leave (do_semaphore_down (image.semaphore_at 5) s)
    × Hands image machine
        (condition_wait 5 6)
        (Continuation.acquire lock)
        (do_condition_wait lock (image.condition_at 6) s)
    × ((s.mutex lock).status ≡ locked
        → Hands image machine
            (mutex_lock_acquire 5)
            (Continuation.acquire lock)
            (do_mutex_lock_acquire lock s))
    × ((s.mutex lock).status ≡ unlocked
        → Answers image machine (mutex_lock_acquire 5) v (do_mutex_lock_acquire lock s))
    × (leb_ℤ (b.num_now +ℤ pos 1) b.num_expected ≡ true
        → Hands image machine (barrier_wait 5) leave (do_barrier_wait (image.barrier_at 5) s))
    × (leb_ℤ (b.num_now +ℤ pos 1) b.num_expected ≡ false
        → Answers image machine (barrier_wait 5) v (do_barrier_wait (image.barrier_at 5) s))
    × Answers image machine (sys_block 5) v (do_block (image.queue_at 5) s)
    × Answers image machine (sys_unblock_one 5) v (do_unblock_one (image.queue_at 5) s)
    × Answers image machine (sys_unblock_all 5) v (do_unblock_all (image.queue_at 5) s)
    × Answers image machine (mutex_lock_release 5) v (do_mutex_lock_release lock s)
    × Answers image machine (condition_signal 5) v (do_condition_signal (image.condition_at 5) s)
    × Answers image machine
        (condition_broadcast 5)
        v
        (do_condition_broadcast (image.condition_at 5) s)
    × Answers image machine (mutex_lock_init 5) v (ok (do_mutex_lock_init lock s))
    × Answers image machine
        (semaphore_init 5 6)
        v
        (ok (do_semaphore_init (image.semaphore_at 5) (int_of 6) s))
    × Answers image machine
        (barrier_init 5 6)
        v
        (ok (do_barrier_init (image.barrier_at 5) (int_of 6) s))
    × Answers image machine (condition_init 5) v (ok (do_condition_init (image.condition_at 5) s))
    × Answers image machine sys_process_show v (ok (process_show s))
    × Answers image machine sys_getpid (current s).pid (ok s)
    × Draws image machine (sys_write 5) (screen_write image.longest_string 5 machine.memory)
    × Draws image machine (sys_write_ch 5) (screen_write_ch (5 % 256))
    × Draws image machine sys_reflush (λ d. ok (screen_reflush d))
    × Draws image machine (sys_clear 5 6) (clear_lines (int_of 5) (int_of 6))
    × Draws image machine
        (sys_move_cursor 5 6)
        (λ d. ok (screen_move_cursor (int_of 5) (int_of 6) d))
system_call_helper-Answers_example = system_call_helper-Answers image machine 5 6

strcpy-copies_example :
    (m : Memory) × (strcpy 5 300 200 words ≡ ok m)
    × IsString m 300 (104 ∷ 111 ∷ [])
    × ((k : ℕ) → within 300 3 k ≡ false → m k ≡ words k)
strcpy-copies_example =
    strcpy-copies (104 ∷ 111 ∷ []) 5 300 200 words ho-IsString (omega arith) (inr (omega arith))
