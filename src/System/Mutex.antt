-- ===== src/System/Mutex.antt =====
-- `do_mutex_lock_release` of kernel/locking/lock.c, on an orderly kernel.
use os_prj.Prelude.{
  ℕ, ◌<◌, ◌≡◌, ◌∙◌, refl, sym, ap, true, false, arith, has, ◌==◌, ==_self, eq_of_==, pos, negsuc,
  ltb_ℤ,
}
use mathlib.Core.Path.{subst}
use os_prj.Run.{ok-inj, returned, ok, ◌>>=◌}
use os_prj.Queue.{of_mutex}
use os_prj.Queue.Represents.{Lists, num_max_task}
use os_prj.Kernel.{State, MutexLock, unlocked, current, set_pcb, set_mutex, lookup_pid}
use os_prj.Kernel.Lookup.{lookup_pid-pid}
use os_prj.Sched.{get_timer, do_unblock_all}
use os_prj.Sched.Unblock.{drained}
use os_prj.Sched.Sleep.{due}
use os_prj.Locking.Mutex.{drop_owned, do_mutex_lock_release}
use os_prj.Locking.Mutex.Owned.{holds, holds-drop_owned}
use os_prj.System.Invariant.{IsAccounted, IsSettled, IsOrderly, IsOrderly-IsFree}
use os_prj.System.Moves.{settle}
use os_prj.System.Calls.{do_unblock_all-IsSettled}
use os_prj.System.Counted.{IsCounted, InOrder}
use os_prj.System.Tally.{released-drained}

-- A lock that no process names may change.
pub unheld-IsAccounted :
    (m : ℕ) (s t : State)
    → ((a : ℕ) → (t.pcb a).pid ≡ (s.pcb a).pid)
    → ((a : ℕ) → (t.pcb a).lock_owned ≡ (s.pcb a).lock_owned)
    → ((k : ℕ) → (m == k) ≡ false → t.mutex k ≡ s.mutex k)
    → t.next_pid ≡ s.next_pid
    → ((a : ℕ) → a < num_max_task → holds m (s.pcb a).lock_owned ≡ false)
    → IsAccounted s
    → IsAccounted t
unheld-IsAccounted m s t pids owns locks next unheld A =
    let before : (k a : ℕ)
        → holds k (t.pcb a).lock_owned ≡ true
        → holds k (s.pcb a).lock_owned ≡ true =
      λ k a h. ap (λ o. holds k o) (sym (owns a)) ∙ h in
    record {
      owned = λ k a high h.
          let here = A.owned k a high (before k a h) in
          let other : (m == k) ≡ false =
            ground (arith, eq_of_== m k, unheld a high, before k a h) in
          (
            ap (λ (x : MutexLock). x.status) (locks k other) ∙ here.0,
            ap (λ (x : MutexLock). x.owner) (locks k other) ∙ here.1 ∙ sym (pids a),
          );
      unique = λ a b ha hb n same.
          A.unique a b ha hb (ap (λ p. ltb_ℤ (pos 0) p) (sym (pids a)) ∙ n)
            (sym (pids a) ∙ same ∙ pids b);
      fresh = λ a high. rw (pids a, next) (A.fresh a high);
      positive = rw next A.positive;
      holders =
          λ k a high h. ap (λ p. ltb_ℤ (pos 0) p) (pids a) ∙ A.holders k a high (before k a h);
    }

-- Processes may name fewer locks.
fewer-IsAccounted :
    (s t : State)
    → ((a : ℕ) → (t.pcb a).pid ≡ (s.pcb a).pid)
    → ((k a : ℕ) → holds k (t.pcb a).lock_owned ≡ true → holds k (s.pcb a).lock_owned ≡ true)
    → ((k : ℕ) → t.mutex k ≡ s.mutex k)
    → t.next_pid ≡ s.next_pid
    → IsAccounted s
    → IsAccounted t
fewer-IsAccounted s t pids before locks next A = record {
  owned = λ k a high h.
      let here = A.owned k a high (before k a h) in
      (
        ap (λ (x : MutexLock). x.status) (locks k) ∙ here.0,
        ap (λ (x : MutexLock). x.owner) (locks k) ∙ here.1 ∙ sym (pids a),
      );
  unique = λ a b ha hb n same.
      A.unique a b ha hb (ap (λ p. ltb_ℤ (pos 0) p) (sym (pids a)) ∙ n)
        (sym (pids a) ∙ same ∙ pids b);
  fresh = λ a high. rw (pids a, next) (A.fresh a high);
  positive = rw next A.positive;
  holders = λ k a high h. ap (λ p. ltb_ℤ (pos 0) p) (pids a) ∙ A.holders k a high (before k a h);
}

-- Another lock is as free as before, and the lock itself has nobody who waits.
released-IsCounted :
    (m : ℕ) (s u : State) (L : Lists)
    → u.semaphore ≡ s.semaphore
    → u.num_waiting ≡ s.num_waiting
    → u.barrier ≡ s.barrier
    → ((k : ℕ) → (m == k) ≡ false → (u.mutex k).status ≡ (s.mutex k).status)
    → IsCounted s L
    → IsCounted u (drained (of_mutex m) L)
released-IsCounted m s u L values numbers barriers others N =
    rw (values, numbers, barriers) (released-drained s L N m u.mutex others)

module _ (m : ℕ) (s t : State) (L : Lists) where
  -- A release that returns wakes those that wait for the lock, and the current process is none of them.
  pub do_mutex_lock_release-IsSettled :
      IsSettled s L
      → has s.current_running (L (of_mutex m)) ≡ false
      → do_mutex_lock_release m s ≡ ok t
      → IsSettled t (drained (of_mutex m) L)
        × (t.current_running ≡ s.current_running)
        × ((current t).status ≡ (current s).status)
        × (IsCounted s L → IsCounted t (drained (of_mutex m) L))
  unfolding do_mutex_lock_release get_timer
  do_mutex_lock_release-IsSettled S out run =
      let A = S.accounts in
      let rest = λ (j : ℕ). (do
        let s = set_pcb j (record (s.pcb j) { lock_owned = drop_owned m (s.pcb j).lock_owned }) s
        let s = set_mutex m (record (s.mutex m) { status = unlocked }) s
        s ← do_unblock_all (of_mutex m) s
        ok (set_mutex m (record (s.mutex m) { owner = negsuc 0 }) s)) in
      let (j, found, run') = returned (lookup_pid (s.mutex m).owner s) rest t run in
      let owner = lookup_pid-pid (s.mutex m).owner s j found in
      let s₁ = set_pcb j (record (s.pcb j) { lock_owned = drop_owned m (s.pcb j).lock_owned }) s in
      let s₂ = set_mutex m (record (s₁.mutex m) { status = unlocked }) s₁ in
      let pids : (a : ℕ) → (s₁.pcb a).pid ≡ (s.pcb a).pid = λ a. ground (arith, eq_of_== j a) in
      let statuses : (a : ℕ) → (s₁.pcb a).status ≡ (s.pcb a).status =
        λ a. ground (arith, eq_of_== j a) in
      let A₁ : IsAccounted s₁ =
        fewer-IsAccounted s s₁ pids
          (λ k a h. ground (arith, eq_of_== j a, holds-drop_owned m k (s.pcb j).lock_owned))
          (λ k. refl) refl A in
      let unheld : (a : ℕ) → a < num_max_task → holds m (s₁.pcb a).lock_owned ≡ false = λ a high.
        ground (
          arith,
          eq_of_== j a,
          ==_self m,
          ==_self a,
          holds-drop_owned m m (s.pcb j).lock_owned,
          A.owned m a high,
          A.holders m a high,
          A.unique a j high owner.1,
          owner.0,
        ) in
      let A₂ : IsAccounted s₂ =
        unheld-IsAccounted m s₁ s₂ (λ a. refl) (λ a. refl) (λ k o. ground (arith, o)) refl unheld
          A₁ in
      let me = s.current_running in
      let clock : due s₂ me ≡ due s me = ground (arith, eq_of_== j me) in
      let S₂ : IsSettled s₂ L =
        settle s s₂ L S refl pids A₂ L S.queues (λ q a h. statuses a ∙ S.placed q a h) S.members
          (rw (statuses me) S.leaves) (λ h. clock ∙ S.rested h) in
      let (u, e, B, S₃, status, _, objects) =
        do_unblock_all-IsSettled s₂ L S₂ (of_mutex m) refl refl out in
      let v = set_mutex m (record (u.mutex m) { owner = negsuc 0 }) u in
      let B₂ : IsAccounted v =
        unheld-IsAccounted m u v (λ a. refl) (λ a. refl) (λ k o. ground (arith, o)) refl
          (λ a high. ap (λ o. holds m o) (B.owns a) ∙ unheld a high) S₃.accounts in
      let clock' : due v v.current_running ≡ due u u.current_running = refl in
      let S₄ : IsSettled v (drained (of_mutex m) L) =
        settle u v (drained (of_mutex m) L) S₃ refl (λ a. refl) B₂ (drained (of_mutex m) L)
          S₃.queues S₃.placed S₃.members S₃.leaves S₃.rested in
      let same : rest j ≡ ok v = rw e refl in
      let counted : IsCounted s L → IsCounted v (drained (of_mutex m) L) = λ N.
        released-IsCounted m s v L objects.0 objects.1 objects.2 (λ k o. rw (o, objects.3, o) refl)
          N in
      subst
        (λ w.
          IsSettled w (drained (of_mutex m) L)
          × (w.current_running ≡ s.current_running)
          × ((current w).status ≡ (current s).status)
          × (IsCounted s L → IsCounted w (drained (of_mutex m) L)))
        (ok-inj (sym same ∙ run')) (S₄, B.current, status ∙ statuses me, counted)

module _ (m : ℕ) (s t : State) (L : Lists) (O : IsOrderly s L) (N : IsCounted s L) where
  pub do_mutex_lock_release-InOrder : do_mutex_lock_release m s ≡ ok t → InOrder t
  do_mutex_lock_release-InOrder run =
      let (S, same, status, counted) =
        do_mutex_lock_release-IsSettled m s t L O.settled (IsOrderly-IsFree s L O (of_mutex m))
          run in
      (
        drained (of_mutex m) L,
        record { settled = S; runs = λ low. status ∙ O.runs (rw same at low) },
        counted N,
      )
