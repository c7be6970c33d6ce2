-- ===== src/Syscall.antt =====
-- kernel/syscall/syscall.c and `init_syscall` of init/main.c: the table of system calls, the handler
-- that looks a call up in it, and the functions that user programs call. A machine is the kernel's
-- state, the screen and the memory; a system call's arguments are words of 32 bits.
pub mod Wrappers
pub mod Outcome
pub mod Dispatch
pub mod Numbers
use os_prj.Prelude.{
  ℕ, ◌+◌, ◌-◌, ◌%◌, ◌^◌, Bool, true, false, ◌&&◌, Option, none, some, ℤ, pos, negsuc, pos_part,
  ◌+ℤ◌, ltb_ℤ, leb_ℤ, ltb, update, if◌then◌else◌,
}
use os_prj.Syscall.Numbers.{
  syscall_sleep, syscall_block, syscall_unblock_one, syscall_unblock_all, syscall_write,
  syscall_cursor, syscall_reflush, syscall_write_ch, syscall_clear, syscall_process_show,
  syscall_mutex_lock_init, syscall_mutex_lock_acquire, syscall_mutex_lock_release, syscall_spawn,
  syscall_waitpid, syscall_kill, syscall_exit, syscall_getpid, syscall_sem_init, syscall_sem_up,
  syscall_sem_down, syscall_barrier_init, syscall_barrier_wait, syscall_cond_init,
  syscall_cond_wait, syscall_cond_signal, syscall_cond_broadcast,
}
use os_prj.Run.{Run, ok, fault, hang, ◌>>=◌}
use os_prj.Queue.{QueueId}
use os_prj.Text.{Memory}
use os_prj.Screen.{
  Screen, screen_write, screen_reflush, screen_write_ch, clear_lines, screen_move_cursor,
}
use os_prj.Kernel.{State, LockStatus, locked, unlocked, current, set_current}
use os_prj.Sched.{do_sleep, do_block, do_unblock_one, do_unblock_all}
use os_prj.Locking.Mutex.{do_mutex_lock_init, do_mutex_lock_acquire, do_mutex_lock_release}
use os_prj.Locking.Semaphore.{do_semaphore_init, do_semaphore_up, do_semaphore_down}
use os_prj.Locking.Barrier.{do_barrier_init, do_barrier_wait}
use os_prj.Locking.Condition.{
  do_condition_init, do_condition_wait, do_condition_signal, do_condition_broadcast,
}
use os_prj.Process.{TaskInfo, do_spawn, do_wait, do_kill, do_exit, do_getpid, process_show}

-- The functions whose addresses the table can hold.
pub data Handler : Type 0 where
  sleep block unblock_one unblock_all : Handler
  write reflush write_ch clear cursor : Handler
  show_processes spawn waitpid kill exit getpid : Handler
  mutex_init mutex_acquire mutex_release : Handler
  sem_init sem_up sem_down : Handler
  barrier_init barrier_wait : Handler
  cond_init cond_wait cond_signal cond_broadcast : Handler

-- `NUM_SYSCALLS`
abbrev pub num_syscalls : ℕ
num_syscalls = 64

-- `syscall[…] = …`, on a table of which nothing is set.
unfoldable pub init_syscall : ℕ → Option Handler
init_syscall =
    let t = update (λ n. none) syscall_sleep (some Handler.sleep) in
    let t = update t syscall_block (some Handler.block) in
    let t = update t syscall_unblock_one (some Handler.unblock_one) in
    let t = update t syscall_unblock_all (some Handler.unblock_all) in
    let t = update t syscall_write (some Handler.write) in
    let t = update t syscall_reflush (some Handler.reflush) in
    let t = update t syscall_write_ch (some Handler.write_ch) in
    let t = update t syscall_clear (some Handler.clear) in
    let t = update t syscall_process_show (some Handler.show_processes) in
    let t = update t syscall_spawn (some Handler.spawn) in
    let t = update t syscall_waitpid (some Handler.waitpid) in
    let t = update t syscall_kill (some Handler.kill) in
    let t = update t syscall_exit (some Handler.exit) in
    let t = update t syscall_getpid (some Handler.getpid) in
    let t = update t syscall_cursor (some Handler.cursor) in
    let t = update t syscall_mutex_lock_init (some Handler.mutex_init) in
    let t = update t syscall_mutex_lock_acquire (some Handler.mutex_acquire) in
    let t = update t syscall_mutex_lock_release (some Handler.mutex_release) in
    let t = update t syscall_sem_init (some Handler.sem_init) in
    let t = update t syscall_sem_up (some Handler.sem_up) in
    let t = update t syscall_sem_down (some Handler.sem_down) in
    let t = update t syscall_barrier_init (some Handler.barrier_init) in
    let t = update t syscall_barrier_wait (some Handler.barrier_wait) in
    let t = update t syscall_cond_init (some Handler.cond_init) in
    let t = update t syscall_cond_wait (some Handler.cond_wait) in
    let t = update t syscall_cond_signal (some Handler.cond_signal) in
    update t syscall_cond_broadcast (some Handler.cond_broadcast)

-- What the linker and the user programs decide: which object lies at an address, where the interrupt
-- handler lies, and what the register of the result holds when a function without result returns.
pub record Image : Type 0 where
  pub queue_at : ℕ → QueueId
  pub mutex_at : ℕ → ℕ
  pub semaphore_at : ℕ → ℕ
  pub barrier_at : ℕ → ℕ
  pub condition_at : ℕ → ℕ
  pub task_at : ℕ → TaskInfo
  pub handle_int : ℕ
  pub leftover : ℤ
  pub longest_string : ℕ

pub record Machine : Type 0 where
  pub kernel : State
  pub screen : Screen
  pub memory : Memory

-- A word read as an `int`
abbrev pub int_of : ℕ → ℤ
int_of w = if ltb w (2 ^ 31) then pos w else negsuc (2 ^ 32 - 1 - w)

-- A function of drivers/screen.c works on the cursor that the kernel keeps.
abbrev pub with_screen : (Screen → Run Screen) → Machine → Run Machine
with_screen f m = do
  let k = m.kernel
  s ← f (record m.screen { cursor_x = k.screen_cursor_x; cursor_y = k.screen_cursor_y })
  ok (record m {
    screen = s;
    kernel = record k { screen_cursor_x = s.cursor_x; screen_cursor_y = s.cursor_y };
  })

abbrev pub with_kernel : Run State → Machine → Run Machine
with_kernel r m = do k ← r; ok (record m { kernel = k })

-- `current_running->user_context.regs[2] = …`
abbrev pub set_v0 : ℤ → Machine → Machine
set_v0 v m =
    let p = current m.kernel in
    record m {
      kernel = set_current (record p { user_context = record p.user_context { v0 = v } }) m.kernel;
    }

module _ (image : Image) where
  -- `syscall[fn](arg1, arg2, arg3)`
  unfoldable pub call : Handler → (arg1 arg2 arg3 : ℕ) → Machine → Run Machine
  call Handler.sleep a b c m = with_kernel (do_sleep a m.kernel) m
  call Handler.block a b c m = with_kernel (do_block (image.queue_at a) m.kernel) m
  call Handler.unblock_one a b c m = with_kernel (do_unblock_one (image.queue_at a) m.kernel) m
  call Handler.unblock_all a b c m = with_kernel (do_unblock_all (image.queue_at a) m.kernel) m
  call Handler.write a b c m = with_screen (screen_write image.longest_string a m.memory) m
  call Handler.reflush a b c m = with_screen (λ s. ok (screen_reflush s)) m
  call Handler.write_ch a b c m = with_screen (screen_write_ch (a % 256)) m
  call Handler.clear a b c m = with_screen (clear_lines (int_of a) (int_of b)) m
  call Handler.cursor a b c m = with_screen (λ s. ok (screen_move_cursor (int_of a) (int_of b) s)) m
  call Handler.show_processes a b c m = with_kernel (ok (process_show m.kernel)) m
  call Handler.spawn a b c m = with_kernel (do_spawn image.handle_int (image.task_at a) m.kernel) m
  call Handler.waitpid a b c m = with_kernel (do_wait (int_of a) m.kernel) m
  call Handler.kill a b c m = with_kernel (do_kill (int_of a) m.kernel) m
  call Handler.exit a b c m = with_kernel (do_exit m.kernel) m
  call Handler.getpid a b c m = ok m
  call Handler.mutex_init a b c m =
      with_kernel (ok (do_mutex_lock_init (image.mutex_at a) m.kernel)) m
  call Handler.mutex_acquire a b c m =
      with_kernel (do_mutex_lock_acquire (image.mutex_at a) m.kernel) m
  call Handler.mutex_release a b c m =
      with_kernel (do_mutex_lock_release (image.mutex_at a) m.kernel) m
  call Handler.sem_init a b c m =
      with_kernel (ok (do_semaphore_init (image.semaphore_at a) (int_of b) m.kernel)) m
  call Handler.sem_up a b c m = with_kernel (do_semaphore_up (image.semaphore_at a) m.kernel) m
  call Handler.sem_down a b c m = with_kernel (do_semaphore_down (image.semaphore_at a) m.kernel) m
  call Handler.barrier_init a b c m =
      with_kernel (ok (do_barrier_init (image.barrier_at a) (int_of b) m.kernel)) m
  call Handler.barrier_wait a b c m = with_kernel (do_barrier_wait (image.barrier_at a) m.kernel) m
  call Handler.cond_init a b c m =
      with_kernel (ok (do_condition_init (image.condition_at a) m.kernel)) m
  call Handler.cond_wait a b c m =
      with_kernel (do_condition_wait (image.mutex_at a) (image.condition_at b) m.kernel) m
  call Handler.cond_signal a b c m =
      with_kernel (do_condition_signal (image.condition_at a) m.kernel) m
  call Handler.cond_broadcast a b c m =
      with_kernel (do_condition_broadcast (image.condition_at a) m.kernel) m

  abbrev pub is_locked : LockStatus → Bool
  is_locked locked = true
  is_locked unlocked = false

  -- Whether the call reaches `do_scheduler`: then another process goes on, and the caller's result is
  -- written when its turn comes again.
  unfoldable pub hands_over : Handler → (arg1 : ℕ) → State → Bool
  hands_over Handler.sleep a s = true
  hands_over Handler.spawn a s = true
  hands_over Handler.waitpid a s = true
  hands_over Handler.kill a s = true
  hands_over Handler.exit a s = true
  hands_over Handler.sem_up a s = true
  hands_over Handler.sem_down a s = true
  hands_over Handler.cond_wait a s = true
  hands_over Handler.mutex_acquire a s = is_locked (s.mutex (image.mutex_at a)).status
  hands_over Handler.barrier_wait a s =
      let b = s.barrier (image.barrier_at a) in leb_ℤ (b.num_now +ℤ pos 1) b.num_expected
  hands_over _ a s = false

  -- `return_val`
  abbrev pub result : Handler → Machine → ℤ
  result Handler.getpid m = do_getpid m.kernel
  result h m = image.leftover

  -- A number without a handler is a call of the NULL pointer.
  unfoldable pub system_call_helper : (fn : ℤ) → (arg1 arg2 arg3 : ℕ) → Machine → Run Machine
  unfolding init_syscall
  system_call_helper fn a b c m =
      if leb_ℤ (pos 0) fn && ltb_ℤ fn (pos num_syscalls)
      then elim (init_syscall (pos_part fn)) [
        | none ↦ fault
        | some h ↦ do
          m' ← call h a b c m
          ok (if hands_over h a m.kernel then m' else set_v0 (result h m') m')
      ]
      else hang
