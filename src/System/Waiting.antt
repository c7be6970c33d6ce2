-- ===== src/System/Waiting.antt =====
-- The operations of kernel/locking/ that wake, in the states that the kernel reaches.
use os_prj.Prelude.{ℕ, ◌<◌, ◌≡◌, arith, true, length, pos, ltb_ℤ}
use os_prj.Run.{ok}
use os_prj.Queue.{of_semaphore, of_barrier, of_condition}
use os_prj.Queue.Represents.{Represents, Lists}
use os_prj.Kernel.{State, leave}
use os_prj.Sched.{do_scheduler}
use os_prj.Sched.Unblock.{drained, served, roused, wake_all}
use os_prj.Locking.Semaphore.{do_semaphore_up}
use os_prj.Locking.Semaphore.Balance.{do_semaphore_up-served}
use os_prj.Locking.Barrier.{do_barrier_wait}
use os_prj.Locking.Barrier.Rounds.{IsClosed, gathered, met, do_barrier_wait-gathered}
use os_prj.Locking.Condition.{do_condition_signal, do_condition_broadcast}
use os_prj.Locking.Condition.Waiters.{do_condition_signal-served, do_condition_broadcast-drained}
use os_prj.Syscall.{Image, Machine}
use os_prj.System.Invariant.{IsOrderly-IsFree}
use os_prj.System.Counted.{IsCounted}
use os_prj.System.Reach.{Reach, Reach-InOrder}

IsCounted-IsClosed :
    (k goal : ℕ) (s : State) (L : Lists)
    → IsCounted s L
    → (s.barrier k).num_expected ≡ pos goal
    → 0 < goal
    → IsClosed k goal s L
IsCounted-IsClosed k goal s L N e above =
    let expects : ltb_ℤ (pos 0) (s.barrier k).num_expected ≡ true = rw e (ground arith) in
    let (numbers, fewer) = N.barriers k expects in
    let below : ltb_ℤ (pos (length (L (of_barrier k)))) (pos goal) ≡ true =
      rw (numbers, e) at fewer in
    (e, numbers, ground arith)

module _ (image : Image) (m : Machine) (reached : Reach image m) where
  -- In every state that the kernel reaches, no call that wakes meets an empty queue: for every
  -- semaphore `do_semaphore_up` wakes the process that has waited longest, if one waits, and calls
  -- the scheduler, and for every condition `do_condition_signal` wakes the one that has waited
  -- longest, if one waits, and `do_condition_broadcast` all, and both return. The states are those
  -- of `Reach-exclusive`.
  pub Reach-wakes :
      let s = m.kernel in
      (L : Lists) × Represents s.links L
      × ((k : ℕ)
          → (t : State) × (do_semaphore_up k s ≡ do_scheduler leave t)
            × Represents t.links (served (of_semaphore k) L)
            × (t.pcb ≡ roused (L (of_semaphore k)) s.pcb))
      × ((k : ℕ)
          → (t : State) × (do_condition_signal k s ≡ ok t)
            × Represents t.links (served (of_condition k) L)
            × (t.pcb ≡ roused (L (of_condition k)) s.pcb))
      × ((k : ℕ)
          → (t : State) × (do_condition_broadcast k s ≡ ok t)
            × Represents t.links (drained (of_condition k) L)
            × (t.pcb ≡ wake_all (L (of_condition k)) s.pcb))
  Reach-wakes =
      let s = m.kernel in
      let (L, O, N) = Reach-InOrder image m reached in
      let R = O.settled.queues in
      (
        L,
        R,
        λ k.
            let (t, run, queues, _, table, _) = do_semaphore_up-served k s R (N.semaphores k) in
            (t, run, queues, table),
        λ k.
            let (t, run, queues, table, _) = do_condition_signal-served k s R (N.conditions k) in
            (t, run, queues, table),
        λ k.
            let (t, run, queues, table, _) =
              do_condition_broadcast-drained k s R (N.conditions k) in
            (t, run, queues, table),
      )

  -- In every state that the kernel reaches with a process running, fewer processes wait at a
  -- barrier that expects somebody than it expects, and `do_barrier_wait` calls the scheduler: the
  -- last of the expected processes wakes all the others, and any other waits behind them. The
  -- states are those of `Reach-exclusive`.
  pub Reach-gathers :
      (k goal : ℕ)
      → (m.kernel.barrier k).num_expected ≡ pos goal
      → 0 < goal
      → 0 < m.kernel.current_running
      → let s = m.kernel in
        (L : Lists) × Represents s.links L
        × (length (L (of_barrier k)) < goal)
        × ((t : State) × (do_barrier_wait k s ≡ do_scheduler leave t)
            × Represents t.links (gathered k goal s L)
            × (t.pcb ≡ met k goal s L))
  Reach-gathers k goal e above low =
      let s = m.kernel in
      let (L, O, N) = Reach-InOrder image m reached in
      let closed = IsCounted-IsClosed k goal s L N e above in
      let (t, run, queues, table, _) =
        do_barrier_wait-gathered k goal s O.settled.queues closed (IsOrderly-IsFree s L O) low
          O.settled.inside in
      (L, O.settled.queues, closed.2, (t, run, queues, table))
