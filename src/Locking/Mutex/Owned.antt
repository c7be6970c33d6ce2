-- ===== src/Locking/Mutex/Owned.antt =====
-- Who owns a lock according to the process table and according to the lock.
use os_prj.Prelude.{
  ℕ, ◌<◌, ◌≡◌, refl, Bool, true, false, ◌||◌, Option, none, some, List, [], ◌∷◌, arith, ◌==◌,
  update, if◌then◌else◌,
}
use os_prj.Queue.Represents.{num_max_task}
use os_prj.Kernel.{Pcb, State, locked}
use os_prj.Sched.{wake}
use os_prj.Sched.Unblock.{wake_all}
use os_prj.Locking.Mutex.{add_owned, is_lock, drop_owned}

-- `lock_owned` names the lock.
abbrev pub holds : ℕ → List (Option ℕ) → Bool
holds m [] = false
holds m (o ∷ rest) = is_lock m o || holds m rest

-- `lock_owned` has a free entry.
abbrev pub has_room : List (Option ℕ) → Bool
has_room [] = false
has_room (none ∷ rest) = true
has_room (some m ∷ rest) = has_room rest

-- A lock that a process names as its own is locked, and names the process as its owner.
abbrev pub IsOwned : State → Type 0
IsOwned s =
    (m i : ℕ)
    → i < num_max_task
    → holds m (s.pcb i).lock_owned ≡ true
    → ((s.mutex m).status ≡ locked) × ((s.mutex m).owner ≡ (s.pcb i).pid)

-- A lock put into the first free entry is the only change.
pub add_owned-holds :
    (m : ℕ) (owned : List (Option ℕ))
    → has_room owned ≡ true
    → (owned' : List (Option ℕ)) × (add_owned m owned ≡ some owned')
      × ((k : ℕ) → holds k owned' ≡ ((m == k) || holds k owned))
add_owned-holds m [] h = cc
add_owned-holds m (none ∷ rest) h = (some m ∷ rest, refl, λ k. refl)
add_owned-holds m (some o ∷ rest) h =
    let (rest', e, same) = add_owned-holds m rest h in
    (some o ∷ rest', rw e refl, λ k. ground (arith, same k))

pub add_owned-none :
    (m : ℕ) (owned : List (Option ℕ)) → has_room owned ≡ false → add_owned m owned ≡ none
add_owned-none m [] h = refl
add_owned-none m (none ∷ rest) h = cc
add_owned-none m (some o ∷ rest) h = rw (add_owned-none m rest h) refl

pub holds-drop_owned :
    (m k : ℕ) (owned : List (Option ℕ))
    → holds k (drop_owned m owned) ≡ (if m == k then false else holds k owned)
holds-drop_owned m k [] = ground arith
holds-drop_owned m k (none ∷ rest) = holds-drop_owned m k rest
holds-drop_owned m k (some o ∷ rest) = ground (arith, holds-drop_owned m k rest)

-- Waking processes changes neither their locks nor their numbers, nor what they wait for, nor where they go
-- on.
pub wake_all-lock_owned :
    (xs : List ℕ) (pcb : ℕ → Pcb) (a : ℕ)
    → ((wake_all xs pcb a).lock_owned ≡ (pcb a).lock_owned)
      × ((wake_all xs pcb a).pid ≡ (pcb a).pid)
      × ((wake_all xs pcb a).waiting_pcb ≡ (pcb a).waiting_pcb)
      × ((wake_all xs pcb a).continuation ≡ (pcb a).continuation)
wake_all-lock_owned [] pcb a = (refl, refl, refl, refl)
wake_all-lock_owned (x ∷ xs) pcb a =
    ground (arith, wake_all-lock_owned xs (update pcb x (wake (pcb x))) a)
