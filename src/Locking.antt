-- ===== src/Locking.antt =====
-- kernel/locking: the synchronisation objects that the kernel offers to user programs.
pub mod Mutex
pub mod Semaphore
pub mod Barrier
pub mod Condition
pub mod Spin
