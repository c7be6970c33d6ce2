-- ===== src/Locking/Mutex/Release.antt =====
-- `do_mutex_lock_release` of kernel/locking/lock.c
use os_prj.Prelude.{
  ℕ, List, ◌<◌, ◌≡◌, ◌∙◌, ap, sym, refl, true, arith, ◌==◌, ==_self, eq_of_==, update, negsuc,
  if◌then◌else◌,
}
use os_prj.Run.{ok, fault}
use os_prj.Queue.{of_mutex}
use os_prj.Queue.Represents.{Represents, Lists, num_max_task}
use os_prj.Kernel.{Pcb, State, MutexLock, unlocked, set_pcb, set_mutex, lookup_pid}
use os_prj.Sched.Unblock.{wake_all, drained, do_unblock_all-drained}
use os_prj.Locking.Mutex.{drop_owned, do_mutex_lock_release}
use os_prj.Locking.Mutex.Owned.{holds, IsOwned, holds-drop_owned, wake_all-lock_owned}

-- The table after the process `pcb[j]` gave up the lock.
abbrev pub dropped : ℕ → ℕ → State → ℕ → Pcb
dropped m j s = update s.pcb j (record (s.pcb j) { lock_owned = drop_owned m (s.pcb j).lock_owned })

-- A lock that nobody owns.
abbrev pub free_lock : MutexLock
free_lock = record { status = unlocked; owner = negsuc 0 }

module _ (m : ℕ) (s : State) where
  -- `do_mutex_lock_release` makes the lock free, takes it from the locks of its owner, and wakes
  -- all that waited for it, in their order; no other lock changes. The queues are in order, and
  -- the search for the number of the owner finds its block.
  pub do_mutex_lock_release-drained :
      {L : Lists} (j : ℕ)
      → lookup_pid (s.mutex m).owner s ≡ ok j
      → Represents s.links L
      → (t : State) × (do_mutex_lock_release m s ≡ ok t)
        × Represents t.links (drained (of_mutex m) L)
        × (t.pcb ≡ wake_all (L (of_mutex m)) (dropped m j s))
        × ((k : ℕ) → t.mutex k ≡ (if m == k then free_lock else s.mutex k))
        × (t.num_waiting ≡ s.num_waiting)
        × (t.current_running ≡ s.current_running)
  unfolding do_mutex_lock_release
  do_mutex_lock_release-drained {L} j found R =
      let p = record (s.pcb j) { lock_owned = drop_owned m (s.pcb j).lock_owned } in
      let u = set_mutex m (record (s.mutex m) { status = unlocked }) (set_pcb j p s) in
      let (l, e, R') = do_unblock_all-drained (of_mutex m) u R refl in
      (
        record s {
          links = l;
          pcb = wake_all (L (of_mutex m)) (dropped m j s);
          mutex = update u.mutex m (record (u.mutex m) { owner = negsuc 0 });
        },
        rw (found, e) refl,
        R',
        refl,
        λ k. ground (arith, ==_self m),
        refl,
        refl,
      )

  -- If the owner's number is its own, tables and locks agree after the changes of a release.
  pub dropped-IsOwned :
      (woken : List ℕ) (j : ℕ) (t : State)
      → ((i : ℕ) → i < num_max_task → (s.pcb i).pid ≡ (s.mutex m).owner → i ≡ j)
      → IsOwned s
      → (t.pcb ≡ wake_all woken (dropped m j s))
      → ((k : ℕ) → t.mutex k ≡ (if m == k then free_lock else s.mutex k))
      → IsOwned t
  dropped-IsOwned woken j t unique owned table locks k i high h =
      let kept = wake_all-lock_owned woken (dropped m j s) i in
      let here : holds k (dropped m j s i).lock_owned ≡ true =
        ap (λ o. holds k o) (sym (kept.0)) ∙ rw table at h in
      let own : (dropped m j s i).pid ≡ (s.pcb i).pid = ground arith in
      let same : (t.pcb i).pid ≡ (s.pcb i).pid =
        ap (λ (f : ℕ → Pcb). (f i).pid) table ∙ kept.1 ∙ own in
      ground (
        arith,
        holds-drop_owned m k (s.pcb j).lock_owned,
        owned k i high,
        unique i high,
        locks k,
        same,
        eq_of_== m k,
      )

  -- A release keeps tables and locks in agreement: a lock that a process names is locked and names
  -- the process. The queues are in order, and the search for the number of the owner finds its
  -- block, the only one with that number.
  pub do_mutex_lock_release-IsOwned :
      {L : Lists} (j : ℕ)
      → lookup_pid (s.mutex m).owner s ≡ ok j
      → ((i : ℕ) → i < num_max_task → (s.pcb i).pid ≡ (s.mutex m).owner → i ≡ j)
      → Represents s.links L
      → IsOwned s
      → (t : State) × (do_mutex_lock_release m s ≡ ok t) × IsOwned t
  do_mutex_lock_release-IsOwned {L} j found unique R owned =
      let (t, e, R', table, locks, _, _) = do_mutex_lock_release-drained j found R in
      (t, e, dropped-IsOwned (L (of_mutex m)) j t unique owned table locks)

  -- A release of a lock whose owner has no block, as when nobody owns it, reads behind the table.
  pub do_mutex_lock_release-fault :
      lookup_pid (s.mutex m).owner s ≡ fault → do_mutex_lock_release m s ≡ fault
  unfolding do_mutex_lock_release
  do_mutex_lock_release-fault missing = rw missing refl
