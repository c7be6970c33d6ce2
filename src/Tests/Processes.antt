-- ===== src/Tests/Processes.antt =====
-- The theorems on init/main.c, tried on small states.
use os_prj.Process.Kill.{Names, do_kill-IsEnded}
use os_prj.Kernel.{lookup_pid, find_pid}
use os_prj.Locking.Mutex.Owned.{IsOwned}
use os_prj.Process.{do_kill}
use os_prj.Prelude.{
  [], ◌∷◌, none, some, ◌==◌, ℕ, if◌then◌else◌, ◌≡◌, refl, [], arith, update, pos, ◌+ℤ◌,
}
use os_prj.Run.{ok}
use os_prj.Queue.{QueueId, waiting, of_mutex, put}
use os_prj.Queue.Represents.{Represents, Lists}
use os_prj.Queue.Push.{pushed}
use os_prj.Kernel.{State, TaskStatus, leave, blocked, user_process, current}
use os_prj.Kernel.Lookup.{lookup_pid-first}
use os_prj.Sched.{do_scheduler}
use os_prj.Process.{do_exit, TaskInfo, new_pcb, kernel_sp, user_sp, do_spawn, do_wait}
use os_prj.Process.Spawn.{IsFresh, do_spawn-pushed}
use os_prj.Process.Wait.{do_wait-pushed}
use os_prj.Process.Locks.{CanRelease}
use os_prj.Process.End.{IsEnded, do_exit-IsEnded}
use os_prj.Tests.{three_lists, three_links, three-Represents, three-IsFree, kernel}
use os_prj.Tests.Kernels.{owner, found_4, owner-IsOwned, unique_4}

owner-CanRelease : (q : QueueId) → CanRelease 4 (owner q) (three_lists q)
owner-CanRelease q = record {
  queues = three-Represents q;
  owned = owner-IsOwned q;
  found = found_4 q;
  unique = unique_4 q;
  inside = omega arith;
  free = three-IsFree q;
}

do_exit-IsEnded_example :
    (t : State) × (L : Lists) × (do_exit (owner (waiting 4)) ≡ do_scheduler leave t)
    × IsEnded 4 (owner (waiting 4)) (three_lists (waiting 4)) t L
do_exit-IsEnded_example = do_exit-IsEnded (owner (waiting 4)) (owner-CanRelease (waiting 4)) refl

abbrev image : TaskInfo
image = record { entry_point = 0xa0800000; type = user_process }

do_spawn-pushed_example :
    let s = kernel (three_links (QueueId.ready 0)) TaskStatus.ready in
    (t : State) × (do_spawn 0xa0801000 image s ≡ do_scheduler leave t)
    × Represents t.links
        (pushed (QueueId.ready 0) 9 (put (three_lists (QueueId.ready 0)) (waiting 9) []))
    × (t.pcb
        ≡ update s.pcb 9 (
            new_pcb
              (s.pcb 9)
              0xa0801000
              (kernel_sp 3)
              (user_sp 3)
              0xa0800000
              user_process
              (pos 20)
              1))
    × (t.next_pid ≡ pos 20 +ℤ pos 1)
    × IsFresh t
do_spawn-pushed_example =
    do_spawn-pushed 0xa0801000 image (kernel (three_links (QueueId.ready 0)) TaskStatus.ready) 9
      (omega arith) (omega arith) refl (λ k low high. ground arith)
      (three-Represents (QueueId.ready 0)) (λ q. ground arith) (λ i high. ground arith)

do_wait-pushed_example :
    let s = kernel (three_links (waiting 5)) blocked in
    (t : State) × (do_wait (pos 5) s ≡ do_scheduler leave t)
    × Represents t.links (pushed (waiting 5) 4 (three_lists (waiting 5)))
    × ((a : ℕ)
        → t.pcb a ≡ update s.pcb 4 (record (current s) { status = blocked; waiting_pcb = pos 5 }) a)
do_wait-pushed_example =
    do_wait-pushed (pos 5) (kernel (three_links (waiting 5)) blocked) 5
      (lookup_pid-first (pos 5) (kernel (three_links (waiting 5)) blocked) 5 (omega arith)
        (omega arith) refl λ k low high. ground arith)
      (three-Represents (waiting 5)) (three-IsFree (waiting 5)) (omega arith) (omega arith)

-- Three processes wait for the lock 0, which the running one owns.
abbrev contended : State
contended = record (owner (of_mutex 0)) {
  pcb = λ i. record ((owner (of_mutex 0)).pcb i) { lock_waiting = if i == 4 then none else some 0 };
}

contended-found : lookup_pid (pos 3) contended ≡ ok 3
unfolding lookup_pid find_pid
contended-found = refl

contended-IsOwned : IsOwned contended
contended-IsOwned = λ m i high h. owner-IsOwned (of_mutex 0) m i high h

do_kill-IsEnded_example :
    (t : State) × (L : Lists) × (do_kill (pos 3) contended ≡ do_scheduler leave t)
    × IsEnded 3 contended (put (three_lists (of_mutex 0)) (of_mutex 0) (1 ∷ 2 ∷ [])) t L
do_kill-IsEnded_example =
    do_kill-IsEnded (pos 3) contended 3 (of_mutex 0) (1 ∷ 2 ∷ []) [] (three-Represents (of_mutex 0))
      contended-IsOwned contended-found (λ a high same. ground arith) (Names.wants_lock 0 refl refl)
      refl refl refl
