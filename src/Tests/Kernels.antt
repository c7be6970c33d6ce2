-- ===== src/Tests/Kernels.antt =====
-- The theorems on kernel/locking/ and the search for a process, tried on small states.
use os_prj.Prelude.{
  ℕ, ◌==◌, if◌then◌else◌, ◌≡◌, ◌<◌, ◌||◌, refl, false, none, some, [], ◌∷◌, arith, ◌==ℤ◌, pos,
  negsuc, ◌+ℤ◌, ◌-ℤ◌, replicate,
}
use os_prj.Run.{ok, fault}
use os_prj.Queue.{QueueId, of_mutex, of_semaphore, of_barrier, of_condition}
use os_prj.Queue.Represents.{Represents, num_max_task}
use os_prj.Queue.Push.{pushed}
use os_prj.Kernel.{State, Continuation, leave, blocked, locked, current, set_current, lookup_pid}
use os_prj.Kernel.Lookup.{lookup_pid-first, lookup_pid-fault}
use os_prj.Sched.{do_scheduler}
use os_prj.Sched.Unblock.{wake_all, drained, served, roused}
use os_prj.Locking.Mutex.{do_mutex_lock_acquire, do_mutex_lock_release}
use os_prj.Locking.Mutex.Owned.{holds, IsOwned}
use os_prj.Locking.Mutex.Acquire.{do_mutex_lock_acquire-takes, do_mutex_lock_acquire-waits}
use os_prj.Locking.Mutex.Release.{dropped, free_lock, do_mutex_lock_release-drained}
use os_prj.Locking.Semaphore.{do_semaphore_up, do_semaphore_down}
use os_prj.Locking.Semaphore.Balance.{
  Reaches, stopped_down, queued_down, do_semaphore_up-served, do_semaphore_down-queued,
}
use os_prj.Locking.Barrier.{do_barrier_wait}
use os_prj.Locking.Barrier.Rounds.{IsClosed, gathered, met, do_barrier_wait-gathered}
use os_prj.Locking.Condition.{do_condition_wait, do_condition_signal, do_condition_broadcast}
use os_prj.Locking.Condition.Waiters.{
  IsCounted, do_condition_wait-pushed, do_condition_signal-served, do_condition_broadcast-drained,
}
use os_prj.Tests.{three_lists, three_links, three-Represents, three-IsFree, no_links, kernel}

-- Three processes wait in the queue `q`, and a fourth runs.
abbrev pub waiters : QueueId → State
waiters q = kernel (three_links q) blocked

do_semaphore_up-served_example :
    let s = waiters (of_semaphore 0) in
    Reaches 0
      (do_semaphore_up 0 s)
      (negsuc 1)
      (roused (1 ∷ 2 ∷ 3 ∷ []) s.pcb)
      (served (of_semaphore 0) (three_lists (of_semaphore 0)))
unfolding ◌+ℤ◌
do_semaphore_up-served_example =
    do_semaphore_up-served 0 (waiters (of_semaphore 0)) (three-Represents (of_semaphore 0)) refl

do_semaphore_down-queued_example :
    let s = waiters (of_semaphore 0) in
    Reaches 0
      (do_semaphore_down 0 s)
      (negsuc 3)
      (stopped_down 0 s)
      (queued_down 0 s (three_lists (of_semaphore 0)))
unfolding ◌-ℤ◌
do_semaphore_down-queued_example =
    do_semaphore_down-queued 0 (waiters (of_semaphore 0)) (three-Represents (of_semaphore 0)) refl
      (three-IsFree (of_semaphore 0)) (omega arith) (omega arith)

do_barrier_wait-gathered_example :
    let s = waiters (of_barrier 0) in
    let L = three_lists (of_barrier 0) in
    (t : State) × (do_barrier_wait 0 s ≡ do_scheduler leave t)
    × Represents t.links (gathered 0 4 s L)
    × (t.pcb ≡ met 0 4 s L)
    × IsClosed 0 4 t (gathered 0 4 s L)
do_barrier_wait-gathered_example =
    do_barrier_wait-gathered 0 4 (waiters (of_barrier 0)) (three-Represents (of_barrier 0))
      (refl, refl, omega arith) (three-IsFree (of_barrier 0)) (omega arith) (omega arith)

do_condition_signal-served_example :
    let s = waiters (of_condition 0) in
    let L = three_lists (of_condition 0) in
    (t : State) × (do_condition_signal 0 s ≡ ok t)
    × Represents t.links (served (of_condition 0) L)
    × (t.pcb ≡ roused (1 ∷ 2 ∷ 3 ∷ []) s.pcb)
    × IsCounted 0 t (served (of_condition 0) L)
do_condition_signal-served_example =
    do_condition_signal-served 0 (waiters (of_condition 0)) (three-Represents (of_condition 0)) refl

do_condition_broadcast-drained_example :
    let s = waiters (of_condition 0) in
    let L = three_lists (of_condition 0) in
    (t : State) × (do_condition_broadcast 0 s ≡ ok t)
    × Represents t.links (drained (of_condition 0) L)
    × (t.pcb ≡ wake_all (1 ∷ 2 ∷ 3 ∷ []) s.pcb)
    × IsCounted 0 t (drained (of_condition 0) L)
do_condition_broadcast-drained_example =
    do_condition_broadcast-drained 0 (waiters (of_condition 0)) (three-Represents (of_condition 0))
      refl

-- Process 4 owns the lock 0, for which the others in `q` may wait.
abbrev pub owner : QueueId → State
owner q = record (waiters q) {
  mutex = λ m. if m == 0 then record { status = locked; owner = pos 4 } else (waiters q).mutex m;
  pcb = λ i. record ((waiters q).pcb i) {
    lock_owned = if i == 4 then none ∷ some 0 ∷ replicate 3 none else replicate 5 none;
  };
}

pub found_4 : (q : QueueId) → lookup_pid (pos 4) (owner q) ≡ ok 4
found_4 q =
    lookup_pid-first (pos 4) (owner q) 4 (omega arith) (omega arith) refl λ k low high. ground arith

pub owner-IsOwned : (q : QueueId) → IsOwned (owner q)
owner-IsOwned q m i high h = ground arith

-- No block has the number 16.
pub missing_16 : (k : ℕ) → k < num_max_task → (pos k ==ℤ pos 16) ≡ false
missing_16 k high = ground arith

lookup_pid-fault_example : lookup_pid (pos 16) (kernel no_links blocked) ≡ fault
lookup_pid-fault_example =
    lookup_pid-fault (pos 16) (kernel no_links blocked) λ k low high. missing_16 k high

do_mutex_lock_acquire-takes_example :
    let s = kernel no_links blocked in
    (t : State) × (do_mutex_lock_acquire 0 s ≡ ok t)
    × (t.mutex 0 ≡ record { status = locked; owner = pos 4 })
    × ((k : ℕ) → holds k (current t).lock_owned ≡ ((0 == k) || holds k (current s).lock_owned))
    × ((current t).lock_waiting ≡ none)
    × (t.links ≡ s.links)
    × IsOwned t
do_mutex_lock_acquire-takes_example =
    do_mutex_lock_acquire-takes 0 (kernel no_links blocked) refl refl λ m i high h. cc

-- Every process owns five locks.
abbrev full : State
full = record (kernel no_links blocked) {
  pcb = λ i. record ((kernel no_links blocked).pcb i) {
    lock_owned = some 1 ∷ some 2 ∷ some 3 ∷ some 4 ∷ some 5 ∷ [];
  };
}

do_mutex_lock_acquire-waits_example :
    let s = owner (of_mutex 0) in
    (t : State) × (do_mutex_lock_acquire 0 s ≡ do_scheduler (Continuation.acquire 0) t)
    × Represents t.links (pushed (of_mutex 0) 4 (three_lists (of_mutex 0)))
    × (t.mutex ≡ s.mutex)
    × ((current t).status ≡ blocked)
    × ((current t).lock_waiting ≡ some 0)
    × (IsOwned s → IsOwned t)
do_mutex_lock_acquire-waits_example =
    do_mutex_lock_acquire-waits 0 (owner (of_mutex 0)) refl (three-Represents (of_mutex 0))
      (three-IsFree (of_mutex 0)) (omega arith) (omega arith)

do_mutex_lock_release-drained_example :
    let s = owner (of_mutex 0) in
    (t : State) × (do_mutex_lock_release 0 s ≡ ok t)
    × Represents t.links (drained (of_mutex 0) (three_lists (of_mutex 0)))
    × (t.pcb ≡ wake_all (1 ∷ 2 ∷ 3 ∷ []) (dropped 0 4 s))
    × ((k : ℕ) → t.mutex k ≡ (if 0 == k then free_lock else s.mutex k))
    × (t.num_waiting ≡ s.num_waiting)
    × (t.current_running ≡ 4)
do_mutex_lock_release-drained_example =
    do_mutex_lock_release-drained 0 (owner (of_mutex 0)) 4 (found_4 (of_mutex 0))
      (three-Represents (of_mutex 0))

pub unique_4 : (q : QueueId) (i : ℕ) → i < num_max_task → pos i ≡ pos 4 → i ≡ 4
unique_4 q i high e = ground arith

do_condition_wait-pushed_example :
    let s = owner (of_condition 0) in
    let M = pushed (of_condition 0) 4 (three_lists (of_condition 0)) in
    (t : State) × (do_condition_wait 0 0 s ≡ do_scheduler (Continuation.acquire 0) t)
    × Represents t.links (drained (of_mutex 0) M)
    × (t.pcb
        ≡ wake_all
            (three_lists (of_condition 0) (of_mutex 0))
            (dropped 0 4 (set_current (record (current s) { status = blocked }) s)))
    × ((i : ℕ) → t.mutex i ≡ (if 0 == i then free_lock else s.mutex i))
    × IsCounted 0 t (drained (of_mutex 0) M)
do_condition_wait-pushed_example =
    do_condition_wait-pushed 0 (owner (of_condition 0)) (three-Represents (of_condition 0)) refl 0
      refl (found_4 (of_condition 0)) (three-IsFree (of_condition 0)) (omega arith) (omega arith)
