-- ===== src/System/Reach.antt =====
-- The states that the kernel can reach: from the memory that the loader zeroed, by `_start` of
-- init/main.c, and then by system calls, interrupts, and what a process does when its turn comes again.
-- A call of `sys_block`, `sys_unblock_one` or `sys_unblock_all`, which work on any queue that a program
-- names, is no step, and some other calls are steps under the condition `IsSafe`. A process may also
-- make a call before it went on behind its last one, so more states are reached than those of the code.
use os_prj.Queue.{of_mutex, of_semaphore, of_barrier, of_condition}
use os_prj.Prelude.{has, length, neg_part, ltb_ℤ, pos, ℕ, ◌<◌, ◌≡◌, ◌∙◌, sym, true, ℤ}
use os_prj.Run.{ok}
use os_prj.Queue.Represents.{Represents, Lists, IsFree, num_max_task}
use os_prj.Kernel.{running, locked, current}
use os_prj.Locking.Mutex.Owned.{holds}
use os_prj.Syscall.{Image, Machine, system_call_helper}
use os_prj.Interrupt.{interrupt_helper, resume}
use os_prj.System.Placed.{IsPlaced}
use os_prj.System.Invariant.{IsOrderly-IsFree, is_numbered}
use os_prj.System.Counted.{InOrder}
use os_prj.System.Zeroed.{IsZeroed}
use os_prj.Boot.{start_kernel}
use os_prj.System.Events.{
  start_kernel-InOrder, IsSafeCall, resume-InOrder, interrupt_helper-InOrder,
  system_call_helper-InOrder,
}

-- What the kernel does one after the other: it starts, serves a call of the current process or an
-- interrupt, and does what the current process has left to do.
pub data Reach (image : Image) : Machine → Type 0 where
  start :
      (test_shell handler_begin handler_end : ℕ) (m : Machine) {t : Machine}
      → IsZeroed m.kernel
      → start_kernel image test_shell handler_begin handler_end m ≡ ok t
      → Reach image t
  calls :
      (fn : ℤ) (a b c : ℕ) (m : Machine) {t : Machine}
      → Reach image m
      → 0 < m.kernel.current_running
      → IsSafeCall image fn a m.kernel
      → system_call_helper image fn a b c m ≡ ok t
      → Reach image t
  interrupts :
      (cause : ℕ) (m : Machine) {t : Machine}
      → Reach image m
      → interrupt_helper cause m ≡ ok t
      → Reach image t
  goes_on :
      (m : Machine) {t : Machine}
      → Reach image m
      → 0 < m.kernel.current_running
      → resume image m ≡ ok t
      → Reach image t

module _ (image : Image) where
  pub Reach-InOrder : (t : Machine) → Reach image t → InOrder t.kernel
  Reach-InOrder t (start test_shell handler_begin handler_end m zeroed e) =
      start_kernel-InOrder image test_shell handler_begin handler_end m t zeroed e
  Reach-InOrder t (calls fn a b c m before low safe e) =
      system_call_helper-InOrder image fn a b c m t (Reach-InOrder m before) low safe e
  Reach-InOrder t (interrupts cause m before e) =
      interrupt_helper-InOrder image cause m t (Reach-InOrder m before) e
  Reach-InOrder t (goes_on m before low e) = resume-InOrder image m t (Reach-InOrder m before) low e

module _ (image : Image) (m : Machine) (reached : Reach image m) where
  -- In every state that the kernel reaches, all queues are in order, everyone in a queue has the
  -- status that belongs to the queue (ready, sleeping or blocked), and the current process, once
  -- there is one, has the status running and stands in no queue. The states are those of
  -- `Reach-exclusive`.
  pub Reach-IsPlaced :
      (L : Lists) × Represents m.kernel.links L
      × IsPlaced m.kernel.pcb L
      × (0 < m.kernel.current_running
          → ((current m.kernel).status ≡ running) × IsFree m.kernel.current_running L)
  Reach-IsPlaced =
      let (L, O, _) = Reach-InOrder image m reached in
      (L, O.settled.queues, O.settled.placed, λ low. (O.runs low, IsOrderly-IsFree m.kernel L O))

  -- In every state that the kernel reaches, the queues are in order and the objects agree with
  -- them: a semaphore's value below zero and `num_waiting` of a condition count those that wait,
  -- `num_now` of a barrier that expects somebody counts those that wait and is below the number
  -- expected, and a lock for which somebody waits is locked. The states are those of
  -- `Reach-exclusive`.
  pub Reach-IsCounted :
      (L : Lists) × Represents m.kernel.links L
      × ((k : ℕ) → neg_part (m.kernel.semaphore k) ≡ length (L (of_semaphore k)))
      × ((k : ℕ) → m.kernel.num_waiting k ≡ pos (length (L (of_condition k))))
      × ((k : ℕ)
          → ltb_ℤ (pos 0) (m.kernel.barrier k).num_expected ≡ true
          → ((m.kernel.barrier k).num_now ≡ pos (length (L (of_barrier k))))
            × (ltb_ℤ (m.kernel.barrier k).num_now (m.kernel.barrier k).num_expected ≡ true))
      × ((k a : ℕ) → has a (L (of_mutex k)) ≡ true → (m.kernel.mutex k).status ≡ locked)
  Reach-IsCounted =
      let (L, O, N) = Reach-InOrder image m reached in
      (L, O.settled.queues, N.semaphores, N.conditions, N.barriers, N.locks)

  -- In every state that the kernel reaches, two processes that name the same mutex lock as theirs
  -- are the same process, and the lock is locked and names that process as its owner. The states
  -- are those reached from zeroed memory by `_start`, system calls, interrupts and what a process
  -- does when its turn comes again; left out are the calls of `sys_block`, `sys_unblock_one` and
  -- `sys_unblock_all`, an alarm that does not fit into a word, setting up a lock that a process
  -- names, and killing a process other than the caller that does not stand at an end of the queue
  -- that its status names.
  pub Reach-exclusive :
      (k a b : ℕ)
      → a < num_max_task
      → b < num_max_task
      → holds k (m.kernel.pcb a).lock_owned ≡ true
      → holds k (m.kernel.pcb b).lock_owned ≡ true
      → (a ≡ b)
        × ((m.kernel.mutex k).status ≡ locked)
        × ((m.kernel.mutex k).owner ≡ (m.kernel.pcb a).pid)
  Reach-exclusive k a b ha hb held also =
      let (L, O, _) = Reach-InOrder image m reached in
      let A = O.settled.accounts in
      let mine = A.owned k a ha held in
      let other = A.owned k b hb also in
      (A.unique a b ha hb (A.holders k a ha held) (sym mine.1 ∙ other.1), mine.0, mine.1)

  pub Reach-unique :
      (a b : ℕ)
      → a < num_max_task
      → b < num_max_task
      → is_numbered m.kernel a ≡ true
      → (m.kernel.pcb a).pid ≡ (m.kernel.pcb b).pid
      → a ≡ b
  Reach-unique a b ha hb numbered same =
      let (L, O, _) = Reach-InOrder image m reached in
      O.settled.accounts.unique a b ha hb numbered same
