-- ===== src/Locking/Semaphore/Balance.antt =====
-- A semaphore's value below zero counts the processes that wait for it.
use os_prj.Prelude.{
  ℕ, ◌<◌, ◌≡◌, ◌∙◌, refl, ap, List, [], ◌∷◌, arith, length, length-append, ℤ, pos, neg_part, ◌+ℤ◌,
  ◌-ℤ◌, ltb_ℤ, incr_below, incr_above, decr_below, decr_above, ==_self, update, if◌then◌else◌,
  Bool-cases, inl, inr,
}
use os_prj.Run.{Run}
use os_prj.Queue.{of_semaphore}
use os_prj.Queue.Represents.{Represents, Lists, IsFree, num_max_task}
use os_prj.Queue.Push.{pushed}
use os_prj.Kernel.{Pcb, State, leave, blocked, set_pcb, current, set_current, set_semaphore}
use os_prj.Sched.{wake, do_scheduler}
use os_prj.Sched.Unblock.{served, served_by, roused, do_block-pushed, do_unblock_one-head}
use os_prj.Locking.Semaphore.{raise, lower, do_semaphore_up, do_semaphore_down}

-- As many processes wait for the semaphore `k` as its value lies below zero.
abbrev pub IsBalanced : ℕ → State → Lists → Type 0
IsBalanced k s L = neg_part (s.semaphore k) ≡ length (L (of_semaphore k))

-- The table after `do_semaphore_down`.
abbrev pub stopped_down : ℕ → State → ℕ → Pcb
stopped_down k s =
    if ltb_ℤ (s.semaphore k -ℤ pos 1) (pos 0)
    then update s.pcb s.current_running (record (current s) { status = blocked })
    else s.pcb

-- The contents after `do_semaphore_down`: the caller waits if the value is below zero now.
abbrev pub queued_down : ℕ → State → Lists → Lists
queued_down k s L =
    if ltb_ℤ (s.semaphore k -ℤ pos 1) (pos 0)
    then pushed (of_semaphore k) s.current_running L
    else L

-- The code `op` calls the scheduler in a state with the table `pcb`, the contents `M` and the value
-- `v` of the semaphore `k`, which is balanced.
abbrev pub Reaches : ℕ → Run State → ℤ → (ℕ → Pcb) → Lists → Type 0
Reaches k op v pcb M =
    (t : State) × (op ≡ do_scheduler leave t)
    × Represents t.links M
    × (t.semaphore k ≡ v)
    × (t.pcb ≡ pcb)
    × IsBalanced k t M

module _ {L : Lists} (k : ℕ) (s : State) (R : Represents s.links L) (b : IsBalanced k s L) where
  up-cases :
      (xs : List ℕ)
      → L (of_semaphore k) ≡ xs
      → Reaches k
          (do_semaphore_up k s)
          (s.semaphore k +ℤ pos 1)
          (roused xs s.pcb)
          (served_by (of_semaphore k) xs L)
  unfolding raise do_semaphore_up
  up-cases [] e =
      let count = incr_above (s.semaphore k) (b ∙ ap length e) in
      (
        set_semaphore k (s.semaphore k +ℤ pos 1) s,
        rw (==_self k, count.0) refl,
        R,
        rw (==_self k) refl,
        refl,
        rw (==_self k, e) (count.1),
      )
  up-cases (x ∷ xs) e =
      let q = of_semaphore k in
      let raised = set_semaphore k (s.semaphore k +ℤ pos 1) s in
      let (l, e₁, R₁) = do_unblock_one-head q raised x xs R e in
      let count = incr_below (s.semaphore k) (length xs) (b ∙ ap length e) in
      (
        set_pcb x (wake (s.pcb x)) (record raised { links = l }),
        rw (==_self k, count.0, e₁) refl,
        R₁,
        rw (==_self k) refl,
        refl,
        rw (==_self k) (count.1),
      )

  -- `do_semaphore_up` adds one to the value, wakes the process that has waited longest, if one
  -- waits, and calls the scheduler; as many processes wait as the value lies below zero, if so
  -- before. The queues are in order.
  pub do_semaphore_up-served :
      Reaches k
        (do_semaphore_up k s)
        (s.semaphore k +ℤ pos 1)
        (roused (L (of_semaphore k)) s.pcb)
        (served (of_semaphore k) L)
  do_semaphore_up-served = up-cases (L (of_semaphore k)) refl

  -- `do_semaphore_down` takes one from the value, the caller waits exactly if it falls below zero,
  -- and the scheduler is called; as many processes wait as the value lies below zero, if so
  -- before. The queues are in order, and the caller is a process of the table in no queue.
  pub do_semaphore_down-queued :
      IsFree s.current_running L
      → 0 < s.current_running
      → s.current_running < num_max_task
      → Reaches k
          (do_semaphore_down k s)
          (s.semaphore k -ℤ pos 1)
          (stopped_down k s)
          (queued_down k s L)
  unfolding lower do_semaphore_down
  do_semaphore_down-queued free low high =
      let lowered = set_semaphore k (s.semaphore k -ℤ pos 1) s in
      elim (Bool-cases (ltb_ℤ (s.semaphore k -ℤ pos 1) (pos 0))) [
        | inl below ↦
            let (l, e, R') = do_block-pushed (of_semaphore k) lowered R free low high in
            (
              set_current (record (current s) { status = blocked }) (record lowered { links = l }),
              rw (==_self k, below, e) refl,
              rw below R',
              rw (==_self k) refl,
              rw below refl,
              rw (==_self k, below)
                  (ground (
                    arith,
                    decr_below (s.semaphore k) below,
                    length-append (L (of_semaphore k)) (s.current_running ∷ []),
                    b,
                  )),
            )
        | inr above ↦ (
          lowered,
          rw (==_self k, above) refl,
          rw above R,
          rw (==_self k) refl,
          rw above refl,
          rw (==_self k, above) (ground (arith, decr_above (s.semaphore k) above, b)),
        )
      ]
