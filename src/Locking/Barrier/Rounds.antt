-- ===== src/Locking/Barrier/Rounds.antt =====
-- A barrier counts the processes that wait at it, and opens when all have come.
use os_prj.Prelude.{
  ℕ, ◌+◌, ◌<◌, ◌≡◌, refl, Bool, true, false, [], ◌∷◌, arith, length, length-append, pos, ◌+ℤ◌,
  ltb_ℤ, incr_pos, ◌==ℤ◌, ◌==◌, ==_self, update, if◌then◌else◌, Bool-cases, inl, inr,
}
use os_prj.Queue.{of_barrier}
use os_prj.Queue.Represents.{Represents, Lists, IsFree, num_max_task}
use os_prj.Queue.Push.{pushed}
use os_prj.Kernel.{Pcb, State, leave, blocked, current, set_current, set_barrier}
use os_prj.Sched.{do_scheduler}
use os_prj.Sched.Unblock.{wake_all, drained, do_block-pushed, do_unblock_all-drained}
use os_prj.Locking.Barrier.{do_barrier_wait, arrive}

-- The barrier waits for `goal` processes, `num_now` stand in its queue, and that is not all of them.
abbrev pub IsClosed : ℕ → ℕ → State → Lists → Type 0
IsClosed k goal s L =
    ((s.barrier k).num_expected ≡ pos goal)
    × ((s.barrier k).num_now ≡ pos (length (L (of_barrier k))))
    × (length (L (of_barrier k)) < goal)

-- The caller is the last of the processes that the barrier waits for.
abbrev pub completes : ℕ → ℕ → Lists → Bool
completes k goal L = length (L (of_barrier k)) + 1 == goal

-- The contents after `do_barrier_wait`: the last process frees all the others, and any other waits.
abbrev pub gathered : ℕ → ℕ → State → Lists → Lists
gathered k goal s L =
    if completes k goal L
    then drained (of_barrier k) L
    else pushed (of_barrier k) s.current_running L

abbrev pub met : ℕ → ℕ → State → Lists → ℕ → Pcb
met k goal s L =
    if completes k goal L
    then wake_all (L (of_barrier k)) s.pcb
    else update s.pcb s.current_running (record (current s) { status = blocked })

module _ {L : Lists} (k goal : ℕ) (s : State) (R : Represents s.links L)
    (closed : IsClosed k goal s L) (free : IsFree s.current_running L) (low : 0 < s.current_running)
    (high : s.current_running < num_max_task) where
  -- `do_barrier_wait` calls the scheduler on both its paths: the last of the expected processes
  -- wakes all the others, in their order, and the barrier starts again at zero; any other process
  -- waits behind them. Conditions, of which the first holds afterwards, too: as many processes
  -- wait as the barrier has counted, and fewer than it expects; the queues are in order, and the
  -- caller is a process of the table in no queue.
  pub do_barrier_wait-gathered :
      (t : State) × (do_barrier_wait k s ≡ do_scheduler leave t)
      × Represents t.links (gathered k goal s L)
      × (t.pcb ≡ met k goal s L)
      × IsClosed k goal t (gathered k goal s L)
  unfolding do_barrier_wait
  do_barrier_wait-gathered =
      let n : ℕ = length (L (of_barrier k)) in
      let now : (s.barrier k).num_now +ℤ pos 1 ≡ pos (n + 1) = rw (closed.1) (incr_pos n) in
      elim (Bool-cases (completes k goal L)) [
        | inl last ↦
            let (l, e, R') = do_unblock_all-drained (of_barrier k) (arrive k s) R refl in
            let below : ltb_ℤ ((s.barrier k).num_now +ℤ pos 1) (s.barrier k).num_expected ≡ false =
              rw (now, closed.0) (ground arith) in
            let full : ((s.barrier k).num_now +ℤ pos 1 ==ℤ (s.barrier k).num_expected) ≡ true =
              rw (now, closed.0) (ground arith) in
            (
              set_barrier k (record ((arrive k s).barrier k) { num_now = pos 0 })
                  (record (arrive k s) { links = l; pcb = wake_all (L (of_barrier k)) s.pcb }),
              rw (==_self k, below, full, e, ==_self k) refl,
              rw last R',
              rw last refl,
              (
                rw (==_self k) (closed.0),
                rw (==_self k, last, ==_self k) refl,
                rw (last, ==_self k) (omega arith),
              ),
            )
        | inr more ↦
            let (l, e, R') = do_block-pushed (of_barrier k) (arrive k s) R free low high in
            let below : ltb_ℤ ((s.barrier k).num_now +ℤ pos 1) (s.barrier k).num_expected ≡ true =
              rw (now, closed.0) (ground arith) in
            (
              set_current (record (current s) { status = blocked })
                  (record (arrive k s) { links = l }),
              rw (==_self k, below, e) refl,
              rw more R',
              rw more refl,
              (
                rw (==_self k) (closed.0),
                ground (
                  arith,
                  now,
                  ==_self k,
                  length-append (L (of_barrier k)) (s.current_running ∷ []),
                ),
                ground
                    (arith, ==_self k, length-append (L (of_barrier k)) (s.current_running ∷ [])),
              ),
            )
      ]
