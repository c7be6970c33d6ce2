-- ===== src/Locking/Mutex.antt =====
-- kernel/locking/lock.c: mutual exclusion locks with a queue of blocked processes.
pub mod Owned
pub mod Acquire
pub mod Release
use mathlib.Core.Option
use os_prj.Prelude.{
  ℕ, Bool, true, false, Option, none, some, List, [], ◌∷◌, map, ◌==◌, negsuc, if◌then◌else◌,
}
use os_prj.Run.{Run, ok, hang, ◌>>=◌}
use os_prj.Queue.{of_mutex, queue_init}
use os_prj.Kernel.{
  Pcb, LockStatus, unlocked, locked, MutexLock, State, Continuation, set_pcb, current, set_current,
  set_mutex, lookup_pid,
}
use os_prj.Sched.{do_block, do_scheduler, do_unblock_all}

unfoldable pub do_mutex_lock_init : ℕ → State → State
do_mutex_lock_init m s =
    set_mutex m (record { status = unlocked; owner = negsuc 0 })
      (record s { links = queue_init (of_mutex m) s.links })

-- The first free entry of `lock_owned` takes the lock.
abbrev pub add_owned : ℕ → List (Option ℕ) → Option (List (Option ℕ))
add_owned m [] = none
add_owned m (none ∷ rest) = some (some m ∷ rest)
add_owned m (some k ∷ rest) = Option.map (λ r. some k ∷ r) (add_owned m rest)

-- The end of `do_mutex_lock_acquire`, behind its loop: a process that owns too many locks stays here.
unfoldable pub take_lock : ℕ → State → Run State
take_lock m s =
    let p = record (current s) { lock_waiting = none } in
    let s = set_mutex m (record { status = locked; owner = p.pid }) s in
    elim (add_owned m p.lock_owned) [
      | none ↦ hang
      | some owned ↦ ok (set_current (record p { lock_owned = owned }) s)
    ]

-- From the head of the loop: also what a process does that wakes up in it.
unfoldable pub do_mutex_lock_acquire : ℕ → State → Run State
do_mutex_lock_acquire m s = elim (s.mutex m).status [
  | locked ↦ do
    s ← do_block (of_mutex m) s
    let s = set_current (record (current s) { lock_waiting = some m }) s
    do_scheduler (Continuation.acquire m) s
  | unlocked ↦ take_lock m s
]

abbrev pub is_lock : ℕ → Option ℕ → Bool
is_lock m none = false
is_lock m (some k) = k == m

-- Every entry that names the lock is cleared.
abbrev pub drop_owned : ℕ → List (Option ℕ) → List (Option ℕ)
drop_owned m [] = []
drop_owned m (o ∷ rest) = (if is_lock m o then none else o) ∷ drop_owned m rest

unfoldable pub do_mutex_lock_release : ℕ → State → Run State
do_mutex_lock_release m s = do
  j ← lookup_pid (s.mutex m).owner s
  let s = set_pcb j (record (s.pcb j) { lock_owned = drop_owned m (s.pcb j).lock_owned }) s
  let s = set_mutex m (record (s.mutex m) { status = unlocked }) s
  s ← do_unblock_all (of_mutex m) s
  ok (set_mutex m (record (s.mutex m) { owner = negsuc 0 }) s)
