-- ===== src/Locking/Condition/Waiters.antt =====
-- A condition variable counts the processes that wait for it.
use os_prj.Prelude.{
  ℕ, suc, ◌<◌, ◌≡◌, ◌∙◌, refl, ap, true, List, [], ◌∷◌, arith, length, length-append, ℤ, pos, ◌+ℤ◌,
  ◌-ℤ◌, ◌==◌, if◌then◌else◌, ltb_ℤ, incr_pos, decr_pos, ==ℤ_iff, sym, ==_self,
}
use os_prj.Run.{ok}
use os_prj.Queue.{of_condition, of_mutex}
use os_prj.Queue.Represents.{Represents, Lists, IsFree, num_max_task, Represents-ext}
use os_prj.Queue.Push.{pushed}
use os_prj.Kernel.{
  State, Continuation, blocked, set_pcb, current, set_current, set_num_waiting, lookup_pid,
}
use os_prj.Kernel.Lookup.{lookup_pid-cong}
use os_prj.Sched.{wake, do_scheduler}
use os_prj.Sched.Unblock.{
  served, served_by, roused, wake_all, drained, drained-nil, do_block-pushed, do_unblock_one-head,
  do_unblock_all-drained,
}
use os_prj.Locking.Mutex.Release.{dropped, free_lock, do_mutex_lock_release-drained}
use os_prj.Locking.Condition.{do_condition_wait, do_condition_signal, do_condition_broadcast}

-- `num_waiting` is the number of processes in the queue of the condition variable.
abbrev pub IsCounted : ℕ → State → Lists → Type 0
IsCounted k s L = s.num_waiting k ≡ pos (length (L (of_condition k)))

module _ {L : Lists} (k : ℕ) (s : State) (R : Represents s.links L)
    (counted : IsCounted k s L) where
  signal-cases :
      (xs : List ℕ)
      → L (of_condition k) ≡ xs
      → (t : State) × (do_condition_signal k s ≡ ok t)
        × Represents t.links (served_by (of_condition k) xs L)
        × (t.pcb ≡ roused xs s.pcb)
        × IsCounted k t (served_by (of_condition k) xs L)
  unfolding do_condition_signal
  signal-cases [] e =
      let n : s.num_waiting k ≡ pos 0 = counted ∙ ap (λ (xs : List ℕ). pos (length xs)) e in
      (s, rw n refl, R, refl, rw e n)
  signal-cases (x ∷ xs) e =
      let n : s.num_waiting k ≡ pos (suc (length xs)) =
        counted ∙ ap (λ (xs : List ℕ). pos (length xs)) e in
      let (l, e₁, R₁) = do_unblock_one-head (of_condition k) s x xs R e in
      let test : ltb_ℤ (pos 0) (s.num_waiting k) ≡ true = rw n (ground arith) in
      (
        set_num_waiting k (s.num_waiting k -ℤ pos 1)
            (set_pcb x (wake (s.pcb x)) (record s { links = l })),
        rw (test, e₁) refl,
        R₁,
        refl,
        rw (==_self k, n) (decr_pos (length xs)),
      )

  -- If the queues are in order and `num_waiting` counts the waiting processes,
  -- `do_condition_signal` wakes the process that has waited longest for the condition, if one
  -- waits, and the count stays right.
  pub do_condition_signal-served :
      (t : State) × (do_condition_signal k s ≡ ok t)
      × Represents t.links (served (of_condition k) L)
      × (t.pcb ≡ roused (L (of_condition k)) s.pcb)
      × IsCounted k t (served (of_condition k) L)
  do_condition_signal-served = signal-cases (L (of_condition k)) refl

  broadcast-cases :
      (xs : List ℕ)
      → L (of_condition k) ≡ xs
      → (t : State) × (do_condition_broadcast k s ≡ ok t)
        × Represents t.links (drained (of_condition k) L)
        × (t.pcb ≡ wake_all (L (of_condition k)) s.pcb)
        × IsCounted k t (drained (of_condition k) L)
  unfolding do_condition_broadcast
  broadcast-cases [] e =
      let n : s.num_waiting k ≡ pos 0 = counted ∙ ap (λ (xs : List ℕ). pos (length xs)) e in
      (
        s,
        rw n refl,
        Represents-ext L (drained (of_condition k) L) (drained-nil (of_condition k) L e) R,
        rw e refl,
        rw (==_self k) n,
      )
  broadcast-cases (x ∷ xs) e =
      let n : s.num_waiting k ≡ pos (suc (length xs)) =
        counted ∙ ap (λ (xs : List ℕ). pos (length xs)) e in
      let (l, e₁, R₁) = do_unblock_all-drained (of_condition k) s R refl in
      let test : ltb_ℤ (pos 0) (s.num_waiting k) ≡ true = rw n (ground arith) in
      (
        set_num_waiting k (pos 0)
            (record s { links = l; pcb = wake_all (L (of_condition k)) s.pcb }),
        rw (test, e₁) refl,
        R₁,
        refl,
        rw (==_self k) refl,
      )

  -- If the queues are in order and `num_waiting` counts the waiting processes,
  -- `do_condition_broadcast` wakes all that wait for the condition, in their order, and the count
  -- stays right.
  pub do_condition_broadcast-drained :
      (t : State) × (do_condition_broadcast k s ≡ ok t)
      × Represents t.links (drained (of_condition k) L)
      × (t.pcb ≡ wake_all (L (of_condition k)) s.pcb)
      × IsCounted k t (drained (of_condition k) L)
  do_condition_broadcast-drained = broadcast-cases (L (of_condition k)) refl

  -- `do_condition_wait` by the owner of the lock puts the caller behind those that wait for the
  -- condition, frees the lock, wakes all that waited for it and calls the scheduler; the caller
  -- goes on by acquiring the lock again. The process table then has the caller blocked and without
  -- the lock, and those that waited for the lock ready, and no other lock changes; `num_waiting`
  -- counts the waiting processes, if it did. The queues are in order, and the caller is in none
  -- and is found by its number.
  pub do_condition_wait-pushed :
      (m : ℕ)
      → (s.mutex m).owner ≡ (current s).pid
      → lookup_pid (s.mutex m).owner s ≡ ok s.current_running
      → IsFree s.current_running L
      → 0 < s.current_running
      → s.current_running < num_max_task
      → let M = pushed (of_condition k) s.current_running L in
        (t : State) × (do_condition_wait m k s ≡ do_scheduler (Continuation.acquire m) t)
        × Represents t.links (drained (of_mutex m) M)
        × (t.pcb
            ≡ wake_all (L (of_mutex m)) (
                dropped m s.current_running
                  (set_current (record (current s) { status = blocked }) s)))
        × ((i : ℕ) → t.mutex i ≡ (if m == i then free_lock else s.mutex i))
        × IsCounted k t (drained (of_mutex m) M)
  unfolding do_condition_wait
  do_condition_wait-pushed m owner found free low high =
      let is_owner = (==ℤ_iff (s.mutex m).owner (current s).pid).1 owner in
      let u = set_num_waiting k (s.num_waiting k +ℤ pos 1) s in
      let (l, e₁, R₁) = do_block-pushed (of_condition k) u R free low high in
      let v = set_current (record (current s) { status = blocked }) (record u { links = l }) in
      let same = lookup_pid-cong (s.mutex m).owner v s λ i. ground arith in
      let (t, e₂, R₂, table, locks, counts, runs) =
        do_mutex_lock_release-drained m v s.current_running (same ∙ found) R₁ in
      (
        t,
        rw (is_owner, e₁, e₂) refl,
        R₂,
        table,
        locks,
        ap (λ (f : ℕ → ℤ). f k) counts
            ∙ rw (==_self k, counted)
                (incr_pos (length (L (of_condition k)))
                  ∙ ap pos (sym (length-append (L (of_condition k)) (s.current_running ∷ [])))),
      )
