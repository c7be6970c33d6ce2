-- ===== src/Mailbox/Alone.antt =====
-- The calls of kernel/syscall/syscall.c that mailboxes use, for a process that no call makes wait: the
-- kernel's own operations.
use os_prj.Prelude.{
  ℕ, ◌≡◌, ◌∙◌, refl, sym, ap, true, false, Option, none, some, List, [], ◌∷◌, arith, ==_self,
  eq_of_==, ℤ, pos, ltb_ℤ,
}
use os_prj.Run.{Run, ok, out_of_fuel, ◌>>=◌}
use os_prj.Queue.{of_mutex}
use os_prj.Queue.Represents.{Represents, Lists}
use os_prj.Kernel.{
  State, Pcb, MutexLock, unlocked, locked, current, set_current, set_mutex, lookup_pid,
}
use os_prj.Kernel.Lookup.{lookup_pid-cong}
use os_prj.Sched.Unblock.{drained}
use os_prj.Locking.Mutex.{
  take_lock, drop_owned, do_mutex_lock_init, do_mutex_lock_acquire, do_mutex_lock_release,
}
use os_prj.Locking.Mutex.Owned.{holds, has_room, add_owned-holds, wake_all-lock_owned}
use os_prj.Locking.Mutex.Release.{dropped, do_mutex_lock_release-drained}
use os_prj.Locking.Condition.{do_condition_init, do_condition_signal}
use os_prj.Mailbox.{World, Services}
use os_prj.Mailbox.Stack.{Undisturbed}

abbrev pub in_kernel : Run State → World → Run World
in_kernel r w = do k ← r; ok (record w { kernel = k })

-- A call that lets others run is beyond what one process does.
abbrev pub acquire_alone : ℕ → World → Run World
acquire_alone m w = elim (w.kernel.mutex m).status [
  | locked ↦ out_of_fuel
  | unlocked ↦ in_kernel (do_mutex_lock_acquire m w.kernel) w
]

abbrev pub alone : Services
alone = record {
  mutex_lock_init = λ m w. in_kernel (ok (do_mutex_lock_init m w.kernel)) w;
  mutex_lock_acquire = acquire_alone;
  mutex_lock_release = λ m w. in_kernel (do_mutex_lock_release m w.kernel) w;
  condition_init = λ c w. in_kernel (ok (do_condition_init c w.kernel)) w;
  condition_wait = λ m c w. out_of_fuel;
  condition_signal = λ c w. in_kernel (do_condition_signal c w.kernel) w;
}

-- The queues are in order, the current process is found by its number, and nobody waits for a condition.
pub record IsCalm (s : State) : Type 0 where
  pub contents : Lists
  pub queues : Represents s.links contents
  pub found : lookup_pid (current s).pid s ≡ ok s.current_running
  pub nobody : (c : ℕ) → s.num_waiting c ≡ pos 0

-- The current process can take the lock, or has it.
abbrev pub CanTake : ℕ → State → Type 0
CanTake m s = IsCalm s × ((s.mutex m).status ≡ unlocked) × (has_room (current s).lock_owned ≡ true)

abbrev pub HasTaken : ℕ → State → Type 0
HasTaken m s =
    IsCalm s × ((s.mutex m).owner ≡ (current s).pid) × (holds m (current s).lock_owned ≡ true)

has_room-drop_owned :
    (m : ℕ) (owned : List (Option ℕ)) → holds m owned ≡ true → has_room (drop_owned m owned) ≡ true
has_room-drop_owned m [] h = cc
has_room-drop_owned m (none ∷ rest) h = refl
has_room-drop_owned m (some o ∷ rest) h = ground (arith, has_room-drop_owned m rest)

module _ (m : ℕ) where
  pub acquires :
      (w : World)
      → CanTake m w.kernel
      → (k : State) × (acquire_alone m w ≡ ok (record w { kernel = k })) × HasTaken m k
  unfolding do_mutex_lock_acquire take_lock
  acquires w (C, free, room) =
      let s = w.kernel in
      let (o, e, same) = add_owned-holds m (current s).lock_owned room in
      let t =
        set_current (record (current s) { lock_waiting = none; lock_owned = o })
          (set_mutex m (record { status = locked; owner = (current s).pid }) s) in
      let pids : (a : ℕ) → (t.pcb a).pid ≡ (s.pcb a).pid =
        λ a. ground (arith, eq_of_== s.current_running a) in
      (
        t,
        rw (free, acquire_alone, free, do_mutex_lock_acquire, e, take_lock) refl,
        (
          record {
            contents = C.contents;
            queues = C.queues;
            found =
                rw (pids s.current_running) (lookup_pid-cong (current s).pid t s pids ∙ C.found);
            nobody = C.nobody;
          },
          rw (==_self m, pids s.current_running) refl,
          rw (==_self s.current_running) (same m ∙ ground (arith, ==_self m)),
        ),
      )

  pub signals :
      (c : ℕ) (w : World)
      → HasTaken m w.kernel
      → (k : State) × (in_kernel (do_condition_signal c w.kernel) w ≡ ok (record w { kernel = k }))
        × HasTaken m k
  unfolding do_condition_signal
  signals c w (C, owner, held) =
      let idle : ltb_ℤ (pos 0) (w.kernel.num_waiting c) ≡ false = rw (C.nobody c) refl in
      (w.kernel, rw idle refl, (C, owner, held))

  pub releases :
      (w : World)
      → HasTaken m w.kernel
      → (k : State) × (in_kernel (do_mutex_lock_release m w.kernel) w
          ≡ ok (record w { kernel = k }))
        × CanTake m k
  releases w (C, owner, held) =
      let s = w.kernel in
      let me = s.current_running in
      let found : lookup_pid (s.mutex m).owner s ≡ ok me = rw owner C.found in
      let (t, e, R, table, locks, waiting, runs) =
        do_mutex_lock_release-drained m s me found C.queues in
      let kept = wake_all-lock_owned (C.contents (of_mutex m)) (dropped m me s) in
      let pids : (a : ℕ) → (t.pcb a).pid ≡ (s.pcb a).pid = λ a.
        let own : (dropped m me s a).pid ≡ (s.pcb a).pid = ground arith in
        ap (λ (f : ℕ → Pcb). (f a).pid) table ∙ (kept a).1 ∙ own in
      let mine : (dropped m me s me).lock_owned ≡ drop_owned m (s.pcb me).lock_owned =
        rw (==_self me) refl in
      let owned : (t.pcb me).lock_owned ≡ drop_owned m (s.pcb me).lock_owned =
        ap (λ (f : ℕ → Pcb). (f me).lock_owned) table ∙ (kept me).0 ∙ mine in
      let now : (current t).pid ≡ (s.pcb me).pid = ap (λ i. (t.pcb i).pid) runs ∙ pids me in
      (
        t,
        rw e refl,
        (
          record {
            contents = drained (of_mutex m) C.contents;
            queues = R;
            found =
                ap (λ p. lookup_pid p t) now
                ∙ lookup_pid-cong (s.pcb me).pid t s pids
                ∙ C.found
                ∙ ap ok (sym runs);
            nobody = λ c. ap (λ (f : ℕ → ℤ). f c) waiting ∙ C.nobody c;
          },
          ap (λ (x : MutexLock). x.status) (locks m) ∙ rw (==_self m) refl,
          ap (λ i. has_room (t.pcb i).lock_owned) runs
              ∙ ap has_room owned
              ∙ has_room-drop_owned m (s.pcb me).lock_owned held,
        ),
      )

-- A process that can take the lock of a box is undisturbed.
abbrev pub undisturbed : (m : ℕ) → Undisturbed alone m
undisturbed m = record {
  Ready = CanTake m;
  Held = HasTaken m;
  acquires = acquires m;
  signals = signals m;
  releases = releases m;
}
