-- ===== src/Locking/Spin.antt =====
-- kernel/locking/lock.c: spin locks, by the status of the lock. Nothing in the kernel uses them.
use os_prj.Run.{Run, ok, hang}
use os_prj.Kernel.{LockStatus, unlocked, locked}

unfoldable pub spin_lock_init : LockStatus → LockStatus
spin_lock_init status = unlocked

-- The loop reads a status that nobody else changes while the process is in it.
unfoldable pub spin_lock_acquire : LockStatus → Run LockStatus
spin_lock_acquire locked = hang
spin_lock_acquire unlocked = ok locked

unfoldable pub spin_lock_release : LockStatus → LockStatus
spin_lock_release status = unlocked
