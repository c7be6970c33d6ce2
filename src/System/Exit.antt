-- ===== src/System/Exit.antt =====
-- `do_exit` and `do_kill` of init/main.c, on an orderly kernel.
use os_prj.Process.Kill.{Names, leave_queues-removes}
use os_prj.Kernel.Lookup.{lookup_pid-pid}
use os_prj.Queue.Dequeue.{is_nil}
use os_prj.Queue.Represents.{IsFree-append, num_max_task}
use os_prj.Queue.{put, QueueId}
use os_prj.Process.{do_kill, leave_queues}
use os_prj.Kernel.{current, lookup_pid, may_run, is_running}
use os_prj.System.Placed.{put-IsPlaced, put-AreAll}
use os_prj.System.Invariant.{is_numbered}
use os_prj.Prelude.{
  ◌⊎◌, ◌||◌, ◌++◌, ◌∷◌, ◌<◌, ◌==ℤ◌, ==ℤ_iff, has-middle, has-append, ℤ, List, has, inl, inr,
  Bool-cases, ◌==◌, true, false, ℕ, zero, suc, ◌+◌, ◌≡◌, ◌∙◌, refl, sym, none, some, arith,
  eq_of_==, negsuc, Option-cases, inl, inr, get_elem?,
}
use mathlib.Core.Path.{subst}
use os_prj.Run.{ok-inj, returned, ok, fault, ◌>>=◌}
use os_prj.Queue.{Ptr, sleep, waiting, of_mutex}
use os_prj.Queue.Represents.{Lists, IsFree}
use os_prj.Kernel.{State, Pcb, leave, not_exist, set_pcb}
use os_prj.Sched.{get_timer, do_scheduler, do_unblock_all}
use os_prj.Sched.Unblock.{drained, drained-IsFree}
use os_prj.Sched.Sleep.{due}
use os_prj.Locking.Mutex.{do_mutex_lock_release}
use os_prj.Process.{do_exit, end_process, forget_wait, release_locks, max_mutex_own}
use os_prj.System.Invariant.{IsAccounted-cong, Agrees, IsSettled, IsOrderly, IsOrderly-IsFree}
use os_prj.System.Moves.{settle, same-IsSettled}
use os_prj.System.Calls.{do_scheduler-InOrder, do_unblock_all-IsSettled}
use os_prj.System.Counted.{
  IsCounted, InOrder, SameObjects, Same-IsCounted, apart-IsCounted, drained-object,
}
use os_prj.System.Cleared.{of_counter, left-IsCounted}
use os_prj.System.Mutex.{do_mutex_lock_release-IsSettled}

-- What a process waits for is no concern of the queues.
forget_wait-IsSettled :
    (n : ℕ) (p : Ptr) (s t : State) (L : Lists)
    → IsSettled s L
    → forget_wait n p s ≡ ok t
    → IsSettled t L × (t.current_running ≡ s.current_running) × SameObjects s t
unfolding forget_wait get_timer
forget_wait-IsSettled zero p s t L S run = cc
forget_wait-IsSettled (suc n) none s t L S run =
    subst (λ u. IsSettled u L × (u.current_running ≡ s.current_running) × SameObjects s u)
      (ok-inj run) (S, refl, (refl, refl, refl, refl))
forget_wait-IsSettled (suc n) (some x) s t L S run =
    let u = set_pcb x (record (s.pcb x) { waiting_pcb = negsuc 0 }) s in
    let A : Agrees s u = record {
      current = refl;
      pids = λ a. ground (arith, eq_of_== x a);
      owns = λ a. ground (arith, eq_of_== x a);
      locks = λ m. refl;
      next = refl;
    } in
    let clock : due u u.current_running ≡ due s s.current_running =
      ground (arith, eq_of_== x s.current_running) in
    forget_wait-IsSettled n (s.links.next x) u t L
      (same-IsSettled s u L A refl (λ a. ground (arith, eq_of_== x a)) clock S) run

-- The release of the locks of a process while the current process stands in no queue.
release_locks-IsSettled :
    (n j i : ℕ) (s t : State) (L : Lists)
    → IsSettled s L
    → IsFree s.current_running L
    → release_locks n j i s ≡ ok t
    → (L' : Lists) × IsSettled t L' × (IsCounted s L → IsCounted t L')
unfolding release_locks
release_locks-IsSettled zero j i s t L S free run =
    (L, subst (λ u. IsSettled u L) (ok-inj run) S, λ N. subst (λ u. IsCounted u L) (ok-inj run) N)
release_locks-IsSettled (suc n) j i s t L S free run =
    elim (Option-cases (get_elem? (s.pcb i).lock_owned j)) [
      | inl e ↦
          let stops : release_locks (suc n) j i s ≡ fault = rw (e, release_locks) refl in
          absurd (let wrong = sym stops ∙ run in cc)
      | inr (none, e) ↦
          let same : release_locks (suc n) j i s ≡ release_locks n (j + 1) i s =
            rw (e, release_locks) refl in
          release_locks-IsSettled n (j + 1) i s t L S free (sym same ∙ run)
      | inr (some m, e) ↦
          let same : release_locks (suc n) j i s
              ≡ (do_mutex_lock_release m s >>= (λ v. release_locks n (j + 1) i v)) =
            rw (e, release_locks) refl in
          let (u, released, run') =
            returned (do_mutex_lock_release m s) (λ v. release_locks n (j + 1) i v) t
              (sym same ∙ run) in
          let (S', at, _, counted) =
            do_mutex_lock_release-IsSettled m s u L S (free (of_mutex m)) released in
          let (M, S'', counted') =
            release_locks-IsSettled n (j + 1) i u t (drained (of_mutex m) L) S'
              (rw at (drained-IsFree s.current_running (of_mutex m) L free)) run' in
          (M, S'', λ N. counted' (counted N))
    ]

-- A process that stands in no queue ends, be it the current one or another.
module _ (i : ℕ) (s u : State) (L : Lists) (S : IsSettled s L) (gone : IsFree i L)
    (free : IsFree s.current_running L) where
  pub end_process-IsSettled :
      end_process i s ≡ ok u → (L' : Lists) × IsSettled u L' × (IsCounted s L → IsCounted u L')
  unfolding end_process get_timer
  end_process-IsSettled ended =
      let me = s.current_running in
      let s₁ = set_pcb i (record (s.pcb i) { status = not_exist }) s in
      let pids : (a : ℕ) → (s₁.pcb a).pid ≡ (s.pcb a).pid = λ a. ground (arith, eq_of_== i a) in
      let A =
        IsAccounted-cong s s₁ pids (λ a. ground (arith, eq_of_== i a)) (λ m. refl) refl
          S.accounts in
      let leaves : may_run (current s₁).status ≡ is_running (current s₁).status =
        elim (Bool-cases (i == me)) [ inl same ↦ rw same refl | inr other ↦ rw other S.leaves ] in
      let S₁ : IsSettled s₁ L =
        settle s s₁ L S refl pids A L S.queues
          (λ q a h. ground (arith, S.placed q a h, gone q, h, eq_of_== i a)) S.members leaves
          (λ h. absurd (let out = sym (free sleep) ∙ h in cc)) in
      let (v, walked, ended') =
        returned (forget_wait 17 (s₁.links.queue (waiting i)).head s₁)
          (λ w. (do w ← do_unblock_all (waiting i) w; release_locks max_mutex_own 0 i w)) u ended in
      let (S₂, at, objects₂) =
        forget_wait-IsSettled 17 (s₁.links.queue (waiting i)).head s₁ v L S₁ walked in
      let (w, e, B, S₃, _, _, objects₃) =
        do_unblock_all-IsSettled v L S₂ (waiting i) refl refl (rw at (free (waiting i))) in
      let same : (do_unblock_all (waiting i) v >>= (λ w. release_locks max_mutex_own 0 i w))
          ≡ release_locks max_mutex_own 0 i w =
        rw e refl in
      let M = drained (waiting i) L in
      let (M', S₄, counted) =
        release_locks-IsSettled max_mutex_own 0 i w u M S₃
          (rw (B.current ∙ at) (drained-IsFree me (waiting i) L free)) (sym same ∙ ended') in
      (
        M',
        S₄,
        λ N. counted (
            Same-IsCounted v w M objects₃ (
              Same-IsCounted s v M objects₂
                (apart-IsCounted s L M (λ q. drained-object (waiting i) q L refl) N))),
      )

-- The number is that of the current process, or of one at an end of the queue that its status names.
abbrev pub IsKillable : ℤ → State → Lists → Type 0
IsKillable pid s L =
    (lookup_pid pid s ≡ ok s.current_running)
    ⊎ ((i : ℕ) × (q : QueueId) × (xs ys : List ℕ) × (lookup_pid pid s ≡ ok i)
        × Names s (s.pcb i) q
        × (L q ≡ xs ++ i ∷ ys)
        × ((is_nil xs || is_nil ys) ≡ true))

-- Nobody is killed who waits at a semaphore or a condition.
named_apart : (s : State) (p : Pcb) (q : QueueId) → Names s p q → of_counter q ≡ false
named_apart s p q (Names.is_ready k at low prio) = refl
named_apart s p q (Names.is_sleeping at) = refl
named_apart s p q (Names.wants_lock m at lock) = refl
named_apart s p q (Names.awaits j at no_lock some_pid found) = refl

module _ (s t : State) (L : Lists) (O : IsOrderly s L) (N : IsCounted s L) where
  pub do_exit-InOrder : do_exit s ≡ ok t → InOrder t
  unfolding do_exit
  do_exit-InOrder run =
      let free = IsOrderly-IsFree s L O in
      let (u, ended, run') =
        returned (end_process s.current_running s) (λ v. do_scheduler leave v) t run in
      let (M, S, counted) =
        end_process-IsSettled s.current_running s u L O.settled free free ended in
      do_scheduler-InOrder leave u t M S (counted N) run'

  pub do_kill-InOrder :
      (pid : ℤ) → 0 < s.current_running → IsKillable pid s L → do_kill pid s ≡ ok t → InOrder t
  unfolding do_kill get_timer leave_queues
  do_kill-InOrder pid low (inl found) run =
      let free = IsOrderly-IsFree s L O in
      let stays : leave_queues pid (current s) s ≡ ok s = rw (O.runs low, leave_queues) refl in
      let same : do_kill pid s ≡ (end_process s.current_running s >>= (λ v. do_scheduler leave v)) =
        rw (found, stays) refl in
      let (v, ended, run') =
        returned (end_process s.current_running s) (λ v. do_scheduler leave v) t (sym same ∙ run) in
      let (M, S, counted) =
        end_process-IsSettled s.current_running s v L O.settled free free ended in
      do_scheduler-InOrder leave v t M S (counted N) run'
  do_kill-InOrder pid low (inr (i, q, xs, ys, found, named, e, ends)) run =
      let S = O.settled in
      let me = s.current_running in
      let (mine, inside) = lookup_pid-pid pid s i found in
      let member : has i (L q) ≡ true = rw e (has-middle xs i ys) in
      let only : (a : ℕ) → a < num_max_task → ((s.pcb a).pid ==ℤ pid) ≡ true → a ≡ i =
        λ a high same. sym (
          S.accounts.unique i a inside high (S.members q i member)
            (mine ∙ sym ((==ℤ_iff (s.pcb a).pid pid).0 same))) in
      let (l, removed, R) =
        leave_queues-removes pid s i q xs ys S.queues named e ends
          ((==ℤ_iff (s.pcb i).pid pid).1 mine) only in
      let u : State = record s { links = l } in
      let M = put L q (xs ++ ys) in
      let fewer : (a : ℕ) → has a (xs ++ ys) ≡ true → has a (L q) ≡ true =
        λ a h. rw e (ground (arith, has-append a xs ys, has-append a xs (i ∷ ys), h)) in
      let free : IsFree me M =
        λ r. ground (arith, IsOrderly-IsFree s L O r, IsOrderly-IsFree s L O q, fewer me) in
      let A = IsAccounted-cong s u (λ a. refl) (λ a. refl) (λ m. refl) refl S.accounts in
      let S₁ : IsSettled u M =
        settle s u L S refl (λ a. refl) A M R (put-IsPlaced s.pcb L q (xs ++ ys) S.placed fewer)
          (put-AreAll (is_numbered s) L S.members q (xs ++ ys) fewer) S.leaves
          (λ h. absurd (let out = sym (free sleep) ∙ h in cc)) in
      let same : do_kill pid s ≡ (end_process i u >>= (λ v. do_scheduler leave v)) =
        rw (found, removed) refl in
      let (v, ended, run') =
        returned (end_process i u) (λ v. do_scheduler leave v) t (sym same ∙ run) in
      let (M', S₂, counted) =
        end_process-IsSettled i u v M S₁ (IsFree-append S.queues q xs i ys e) free ended in
      do_scheduler-InOrder leave v t M' S₂
        (counted (left-IsCounted s L q (xs ++ ys) (named_apart s (s.pcb i) q named) fewer N)) run'
