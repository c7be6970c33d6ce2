-- ===== src/Locking/Mutex/Acquire.antt =====
-- `do_mutex_lock_acquire` of kernel/locking/lock.c
use os_prj.Prelude.{ℕ, ◌<◌, ◌≡◌, refl, true, false, ◌||◌, none, some, arith, ◌==◌, ==_self}
use os_prj.Run.{ok, hang}
use os_prj.Queue.{of_mutex}
use os_prj.Queue.Represents.{Represents, Lists, IsFree, num_max_task}
use os_prj.Queue.Push.{pushed}
use os_prj.Kernel.{State, Continuation, blocked, unlocked, locked, current, set_current, set_mutex}
use os_prj.Sched.{do_scheduler}
use os_prj.Sched.Unblock.{do_block-pushed}
use os_prj.Locking.Mutex.{take_lock, do_mutex_lock_acquire}
use os_prj.Locking.Mutex.Owned.{holds, has_room, IsOwned, add_owned-holds, add_owned-none}

module _ (m : ℕ) (s : State) where
  -- `do_mutex_lock_acquire` gives a free lock to a caller with a free entry: the lock is locked
  -- and names the caller, the caller names the lock besides the locks it had, and no queue
  -- changes; tables and locks agree, if they did.
  pub do_mutex_lock_acquire-takes :
      (s.mutex m).status ≡ unlocked
      → has_room (current s).lock_owned ≡ true
      → IsOwned s
      → (t : State) × (do_mutex_lock_acquire m s ≡ ok t)
        × (t.mutex m ≡ record { status = locked; owner = (current s).pid })
        × ((k : ℕ) → holds k (current t).lock_owned ≡ ((m == k) || holds k (current s).lock_owned))
        × ((current t).lock_waiting ≡ none)
        × (t.links ≡ s.links)
        × IsOwned t
  unfolding do_mutex_lock_acquire take_lock
  do_mutex_lock_acquire-takes free room owned =
      let (o, e, same) = add_owned-holds m (current s).lock_owned room in
      let t =
        set_current (record (current s) { lock_waiting = none; lock_owned = o })
          (set_mutex m (record { status = locked; owner = (current s).pid }) s) in
      (
        t,
        rw (free, do_mutex_lock_acquire, e, take_lock) refl,
        rw (==_self m) refl,
        rw (==_self s.current_running) same,
        rw (==_self s.current_running) refl,
        refl,
        λ k i high h. ground (arith, same k, owned k i high),
      )

  -- A process that owns five locks already and acquires a free one stays in the kernel for ever.
  pub do_mutex_lock_acquire-hang :
      (s.mutex m).status ≡ unlocked
      → has_room (current s).lock_owned ≡ false
      → do_mutex_lock_acquire m s ≡ hang
  unfolding do_mutex_lock_acquire take_lock
  do_mutex_lock_acquire-hang free full =
      rw (free, do_mutex_lock_acquire, add_owned-none m (current s).lock_owned full, take_lock) refl

  -- At a taken lock `do_mutex_lock_acquire` blocks the caller at the end of the queue of the lock,
  -- notes the lock as what it waits for and calls the scheduler, and the caller goes on at the
  -- test of the loop; no lock changes, and tables and locks agree if they did. The queues are in
  -- order, and the caller is a process of the table in no queue.
  pub do_mutex_lock_acquire-waits :
      {L : Lists}
      → (s.mutex m).status ≡ locked
      → Represents s.links L
      → IsFree s.current_running L
      → 0 < s.current_running
      → s.current_running < num_max_task
      → (t : State) × (do_mutex_lock_acquire m s ≡ do_scheduler (Continuation.acquire m) t)
        × Represents t.links (pushed (of_mutex m) s.current_running L)
        × (t.mutex ≡ s.mutex)
        × ((current t).status ≡ blocked)
        × ((current t).lock_waiting ≡ some m)
        × (IsOwned s → IsOwned t)
  unfolding do_mutex_lock_acquire
  do_mutex_lock_acquire-waits taken R free low high =
      let (l, e, R') = do_block-pushed (of_mutex m) s R free low high in
      let b = set_current (record (current s) { status = blocked }) (record s { links = l }) in
      let t = set_current (record (current b) { lock_waiting = some m }) b in
      (
        t,
        rw (taken, do_mutex_lock_acquire, e) refl,
        R',
        refl,
        rw (==_self s.current_running) refl,
        rw (==_self s.current_running) refl,
        λ owned k i below h. ground (arith, owned k i below),
      )
