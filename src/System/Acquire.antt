-- ===== src/System/Acquire.antt =====
-- `do_mutex_lock_acquire` of kernel/locking/lock.c and `do_condition_wait` of kernel/locking/cond.c, on an
-- orderly kernel.
use os_prj.Prelude.{
  ℕ, ◌<◌, ◌≡◌, ◌∙◌, refl, sym, ap, true, ◌&&◌, ◌||◌, ◌⊎◌, none, some, arith, ◌==◌, ==_self,
  eq_of_==, pos, ltb_ℤ, ◌==ℤ◌, ◌+ℤ◌, if◌then◌else◌, Bool-cases, inl, inr,
}
use mathlib.Core.Path.{subst}
use os_prj.Run.{ok-inj, returned, ok, hang, ◌>>=◌}
use os_prj.Queue.{sleep, of_mutex, of_condition}
use os_prj.Queue.Represents.{Lists, num_max_task}
use os_prj.Queue.Push.{pushed}
use os_prj.Kernel.{
  State, LockStatus, Continuation, unlocked, locked, current, set_current, set_mutex,
  set_num_waiting, printk, lock_not_acquired,
}
use os_prj.Sched.{get_timer, do_scheduler}
use os_prj.Sched.Unblock.{drained}
use os_prj.Sched.Sleep.{due}
use os_prj.Locking.Mutex.{take_lock, do_mutex_lock_acquire, do_mutex_lock_release}
use os_prj.Locking.Mutex.Owned.{holds, has_room, add_owned-holds, add_owned-none}
use os_prj.Locking.Condition.{do_condition_wait}
use os_prj.System.Invariant.{
  IsAccounted, Agrees, IsSettled, IsOrderly, IsOrderly-IsFree, is_numbered,
}
use os_prj.System.Moves.{settle, same-IsSettled}
use os_prj.System.Calls.{do_scheduler-InOrder, do_block-IsSettled}
use os_prj.System.Counted.{IsCounted, InOrder, Same-IsCounted}
use os_prj.System.Tally.{taken-IsCounted, locked-pushed, tallied-pushed}
use os_prj.System.Objects.{aside-IsOrderly}
use os_prj.System.Mutex.{do_mutex_lock_release-IsSettled}

-- The current process takes a lock that nobody holds.
taken-IsAccounted :
    (m : ℕ) (s t : State)
    → s.current_running < num_max_task
    → is_numbered s s.current_running ≡ true
    → ((a : ℕ) → (t.pcb a).pid ≡ (s.pcb a).pid)
    → ((k a : ℕ)
        → holds k (t.pcb a).lock_owned ≡ true
        → ((m == k) && (a == s.current_running)) || holds k (s.pcb a).lock_owned ≡ true)
    → ((k : ℕ)
        → t.mutex k
          ≡ (if m == k then record { status = locked; owner = (current s).pid } else s.mutex k))
    → t.next_pid ≡ s.next_pid
    → (s.mutex m).status ≡ unlocked
    → IsAccounted s
    → IsAccounted t
taken-IsAccounted m s t high numbered pids owns locks next free A = record {
  owned = λ k a h held. ground (
    arith,
    owns k a held,
    locks k,
    pids a,
    A.owned k a h,
    eq_of_== a s.current_running,
    eq_of_== m k,
    free,
  );
  unique = λ a b ha hb n same.
      A.unique a b ha hb (ap (λ p. ltb_ℤ (pos 0) p) (sym (pids a)) ∙ n)
        (sym (pids a) ∙ same ∙ pids b);
  fresh = λ a h. rw (pids a, next) (A.fresh a h);
  positive = rw next A.positive;
  holders = λ k a h held.
      ground
        (arith, owns k a held, pids a, A.holders k a h, eq_of_== a s.current_running, numbered);
}

module _ (m : ℕ) (s t : State) (L : Lists) (O : IsOrderly s L) (N : IsCounted s L)
    (low : 0 < s.current_running) where
  taken-IsOrderly : (s.mutex m).status ≡ unlocked → take_lock m s ≡ ok t → InOrder t
  unfolding take_lock
  taken-IsOrderly free run =
      let me = s.current_running in
      let S = O.settled in
      elim (Bool-cases (has_room (current s).lock_owned)) [
        | inr full ↦
            let stops : take_lock m s ≡ hang =
              rw (add_owned-none m (current s).lock_owned full, take_lock) refl in
            absurd (let wrong = sym stops ∙ run in cc)
        | inl room ↦
            let (o, e, same) = add_owned-holds m (current s).lock_owned room in
            let u =
              set_current (record (current s) { lock_waiting = none; lock_owned = o })
                (set_mutex m (record { status = locked; owner = (current s).pid }) s) in
            let got : take_lock m s ≡ ok u = rw (e, take_lock) refl in
            let statuses : (a : ℕ) → (u.pcb a).status ≡ (s.pcb a).status =
              λ a. ground (arith, eq_of_== me a) in
            let pids : (a : ℕ) → (u.pcb a).pid ≡ (s.pcb a).pid =
              λ a. ground (arith, eq_of_== me a) in
            let A : IsAccounted u =
              taken-IsAccounted m s u S.inside (S.caller low) pids
                (λ k a held. ground (arith, same k, held, eq_of_== me a, ==_self a))
                (λ k. ground arith) refl free S.accounts in
            let settled : IsSettled u L =
              settle s u L S refl pids A L S.queues (λ q a h. statuses a ∙ S.placed q a h) S.members
                (rw (statuses me) S.leaves)
                (λ h. absurd (let out = sym (IsOrderly-IsFree s L O sleep) ∙ h in cc)) in
            (
              L,
              subst (λ w. IsOrderly w L) (ok-inj (sym got ∙ run))
                  record { settled = settled; runs = λ h. statuses me ∙ O.runs h },
              subst (λ w. IsCounted w L) (ok-inj (sym got ∙ run))
                  (taken-IsCounted s L N m u.mutex (rw (==_self m) refl) (λ k o. rw o refl)),
            )
      ]

  pub do_mutex_lock_acquire-InOrder : do_mutex_lock_acquire m s ≡ ok t → InOrder t
  unfolding do_mutex_lock_acquire get_timer
  do_mutex_lock_acquire-InOrder run = elim (lock_cases (s.mutex m).status) [
    | inr free ↦
        let same : do_mutex_lock_acquire m s ≡ take_lock m s =
          rw (free, do_mutex_lock_acquire) refl in
        taken-IsOrderly free (sym same ∙ run)
    | inl taken ↦
        let me = s.current_running in
        let (u, e, _, S, _, objects) = do_block-IsSettled s L O low (of_mutex m) refl refl in
        let v = set_current (record (current u) { lock_waiting = some m }) u in
        let same : do_mutex_lock_acquire m s ≡ do_scheduler (Continuation.acquire m) v =
          rw (taken, do_mutex_lock_acquire, e) refl in
        let A : Agrees u v = record {
          current = refl;
          pids = λ a. ground (arith, eq_of_== u.current_running a);
          owns = λ a. ground (arith, eq_of_== u.current_running a);
          locks = λ k. refl;
          next = refl;
        } in
        let clock : due v v.current_running ≡ due u u.current_running =
          rw (==_self u.current_running) refl in
        let M = pushed (of_mutex m) me L in
        do_scheduler-InOrder (Continuation.acquire m) v t M
          (same-IsSettled u v M A refl (λ a. ground (arith, eq_of_== u.current_running a)) clock S)
          (Same-IsCounted s v M objects (locked-pushed s L N m me taken)) (sym same ∙ run)
  ]
    where
      lock_cases : (l : LockStatus) → (l ≡ locked) ⊎ (l ≡ unlocked)
      lock_cases locked = inl refl
      lock_cases unlocked = inr refl

  pub do_condition_wait-InOrder : (k : ℕ) → do_condition_wait m k s ≡ ok t → InOrder t
  unfolding do_condition_wait
  do_condition_wait-InOrder k run =
      let s₁ = if (s.mutex m).owner ==ℤ (current s).pid then s else printk lock_not_acquired s in
      let s₂ = set_num_waiting k (s₁.num_waiting k +ℤ pos 1) s₁ in
      let me = s.current_running in
      let O₁ : IsOrderly s₁ L = elim (Bool-cases ((s.mutex m).owner ==ℤ (current s).pid)) [
        | inl owner ↦ rw owner O
        | inr other ↦
            rw other (aside-IsOrderly s (printk lock_not_acquired s) L refl refl refl refl refl O)
      ] in
      let at : s₁.current_running ≡ me = ground arith in
      let O₂ = aside-IsOrderly s₁ s₂ L refl refl refl refl refl O₁ in
      let (u, e, A, S, _, objects) =
        do_block-IsSettled s₂ L O₂ (rw at low) (of_condition k) refl refl in
      let waits : IsCounted s₂ (pushed (of_condition k) s₂.current_running L) =
        tallied-pushed s₁ L
          (elim (Bool-cases ((s.mutex m).owner ==ℤ (current s).pid)) [
            | inl owner ↦ rw owner N
            | inr other ↦ rw other N
          ])
          k s₂.current_running in
      let rest = λ (w : State). (do
        w ← do_mutex_lock_release m w
        do_scheduler (Continuation.acquire m) w) in
      let same : do_condition_wait m k s ≡ rest u = rw e refl in
      let (v, released, run') =
        returned (do_mutex_lock_release m u) (λ w. do_scheduler (Continuation.acquire m) w) t
          (sym same ∙ run) in
      let (S', _, _, counted) =
        do_mutex_lock_release-IsSettled m u v (pushed (of_condition k) s₂.current_running L) S
          (rw (A.current) (IsOrderly-IsFree s₂ L O₂ (of_mutex m))) released in
      do_scheduler-InOrder (Continuation.acquire m) v t
        (drained (of_mutex m) (pushed (of_condition k) s₂.current_running L)) S'
        (counted (Same-IsCounted s₂ u (pushed (of_condition k) s₂.current_running L) objects waits))
        run'
