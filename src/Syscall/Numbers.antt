-- ===== src/Syscall/Numbers.antt =====
-- The numbers of the system calls (include/sys/syscall.h).
use os_prj.Prelude.{ℕ}

abbrev pub ignore : ℕ
ignore = 0

abbrev pub syscall_sleep : ℕ
syscall_sleep = 2

abbrev pub syscall_block : ℕ
syscall_block = 10

abbrev pub syscall_unblock_one : ℕ
syscall_unblock_one = 11

abbrev pub syscall_unblock_all : ℕ
syscall_unblock_all = 12

abbrev pub syscall_write : ℕ
syscall_write = 20

abbrev pub syscall_read : ℕ
syscall_read = 21

abbrev pub syscall_cursor : ℕ
syscall_cursor = 22

abbrev pub syscall_reflush : ℕ
syscall_reflush = 23

abbrev pub syscall_write_ch : ℕ
syscall_write_ch = 24

abbrev pub syscall_clear : ℕ
syscall_clear = 25

abbrev pub syscall_process_show : ℕ
syscall_process_show = 29

abbrev pub syscall_mutex_lock_init : ℕ
syscall_mutex_lock_init = 30

abbrev pub syscall_mutex_lock_acquire : ℕ
syscall_mutex_lock_acquire = 31

abbrev pub syscall_mutex_lock_release : ℕ
syscall_mutex_lock_release = 32

abbrev pub syscall_spawn : ℕ
syscall_spawn = 40

abbrev pub syscall_waitpid : ℕ
syscall_waitpid = 41

abbrev pub syscall_kill : ℕ
syscall_kill = 42

abbrev pub syscall_exit : ℕ
syscall_exit = 43

abbrev pub syscall_getpid : ℕ
syscall_getpid = 44

abbrev pub syscall_sem_init : ℕ
syscall_sem_init = 50

abbrev pub syscall_sem_up : ℕ
syscall_sem_up = 51

abbrev pub syscall_sem_down : ℕ
syscall_sem_down = 52

abbrev pub syscall_barrier_init : ℕ
syscall_barrier_init = 53

abbrev pub syscall_barrier_wait : ℕ
syscall_barrier_wait = 54

abbrev pub syscall_cond_init : ℕ
syscall_cond_init = 55

abbrev pub syscall_cond_wait : ℕ
syscall_cond_wait = 56

abbrev pub syscall_cond_signal : ℕ
syscall_cond_signal = 57

abbrev pub syscall_cond_broadcast : ℕ
syscall_cond_broadcast = 58
