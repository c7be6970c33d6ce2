-- ===== src/Syscall/Wrappers.antt =====
-- The functions of kernel/syscall/syscall.c that user programs call: each puts its number and its
-- arguments into registers and traps (`invoke_syscall`). An argument is a word: an address, or an `int`
-- as it stands in a register.
use os_prj.Syscall.Numbers.{
  syscall_sleep, syscall_block, syscall_unblock_one, syscall_unblock_all, syscall_write,
  syscall_cursor, syscall_reflush, syscall_write_ch, syscall_clear, syscall_process_show,
  syscall_mutex_lock_init, syscall_mutex_lock_acquire, syscall_mutex_lock_release, syscall_spawn,
  syscall_waitpid, syscall_kill, syscall_exit, syscall_getpid, syscall_sem_init, syscall_sem_up,
  syscall_sem_down, syscall_barrier_init, syscall_barrier_wait, syscall_cond_init,
  syscall_cond_wait, syscall_cond_signal, syscall_cond_broadcast, ignore,
}
use os_prj.Prelude.{ℕ, ℤ, pos}

-- The registers that `invoke_syscall` fills.
pub record Call : Type 0 where
  pub fn : ℤ
  pub arg1 : ℕ
  pub arg2 : ℕ
  pub arg3 : ℕ

abbrev pub invoke_syscall : (fn : ℕ) → (arg1 arg2 arg3 : ℕ) → Call
invoke_syscall fn a b c = record { fn = pos fn; arg1 = a; arg2 = b; arg3 = c }

abbrev pub sys_sleep : (time : ℕ) → Call
sys_sleep time = invoke_syscall syscall_sleep time ignore ignore

abbrev pub sys_block : (queue : ℕ) → Call
sys_block queue = invoke_syscall syscall_block queue ignore ignore

abbrev pub sys_unblock_one : (queue : ℕ) → Call
sys_unblock_one queue = invoke_syscall syscall_unblock_one queue ignore ignore

abbrev pub sys_unblock_all : (queue : ℕ) → Call
sys_unblock_all queue = invoke_syscall syscall_unblock_all queue ignore ignore

abbrev pub sys_write : (buff : ℕ) → Call
sys_write buff = invoke_syscall syscall_write buff ignore ignore

abbrev pub sys_write_ch : (ch : ℕ) → Call
sys_write_ch ch = invoke_syscall syscall_write_ch ch ignore ignore

abbrev pub sys_reflush : Call
sys_reflush = invoke_syscall syscall_reflush ignore ignore ignore

abbrev pub sys_clear : (line1 line2 : ℕ) → Call
sys_clear line1 line2 = invoke_syscall syscall_clear line1 line2 ignore

abbrev pub sys_move_cursor : (x y : ℕ) → Call
sys_move_cursor x y = invoke_syscall syscall_cursor x y ignore

abbrev pub sys_process_show : Call
sys_process_show = invoke_syscall syscall_process_show ignore ignore ignore

abbrev pub mutex_lock_init : (lock : ℕ) → Call
mutex_lock_init lock = invoke_syscall syscall_mutex_lock_init lock ignore ignore

abbrev pub mutex_lock_acquire : (lock : ℕ) → Call
mutex_lock_acquire lock = invoke_syscall syscall_mutex_lock_acquire lock ignore ignore

abbrev pub mutex_lock_release : (lock : ℕ) → Call
mutex_lock_release lock = invoke_syscall syscall_mutex_lock_release lock ignore ignore

abbrev pub sys_spawn : (exec_info : ℕ) → Call
sys_spawn exec_info = invoke_syscall syscall_spawn exec_info ignore ignore

abbrev pub sys_kill : (pid : ℕ) → Call
sys_kill pid = invoke_syscall syscall_kill pid ignore ignore

abbrev pub sys_exit : Call
sys_exit = invoke_syscall syscall_exit ignore ignore ignore

abbrev pub sys_waitpid : (pid : ℕ) → Call
sys_waitpid pid = invoke_syscall syscall_waitpid pid ignore ignore

abbrev pub sys_getpid : Call
sys_getpid = invoke_syscall syscall_getpid ignore ignore ignore

abbrev pub semaphore_init : (sem val : ℕ) → Call
semaphore_init sem val = invoke_syscall syscall_sem_init sem val ignore

abbrev pub semaphore_up : (sem : ℕ) → Call
semaphore_up sem = invoke_syscall syscall_sem_up sem ignore ignore

abbrev pub semaphore_down : (sem : ℕ) → Call
semaphore_down sem = invoke_syscall syscall_sem_down sem ignore ignore

abbrev pub barrier_init : (barrier goal : ℕ) → Call
barrier_init barrier goal = invoke_syscall syscall_barrier_init barrier goal ignore

abbrev pub barrier_wait : (barrier : ℕ) → Call
barrier_wait barrier = invoke_syscall syscall_barrier_wait barrier ignore ignore

abbrev pub condition_init : (condition : ℕ) → Call
condition_init condition = invoke_syscall syscall_cond_init condition ignore ignore

abbrev pub condition_wait : (lock condition : ℕ) → Call
condition_wait lock condition = invoke_syscall syscall_cond_wait lock condition ignore

abbrev pub condition_signal : (condition : ℕ) → Call
condition_signal condition = invoke_syscall syscall_cond_signal condition ignore ignore

abbrev pub condition_broadcast : (condition : ℕ) → Call
condition_broadcast condition = invoke_syscall syscall_cond_broadcast condition ignore ignore
