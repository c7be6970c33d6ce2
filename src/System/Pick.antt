-- ===== src/System/Pick.antt =====
-- The process that `scheduler` of kernel/sched/sched.c picks.
use os_prj.Prelude.{
  ℕ, ◌<◌, ◌≡◌, ◌∙◌, refl, sym, ap, true, List, [], ◌∷◌, arith, has, ==_self, eq_of_==, pos, ltb_ℤ,
}
use mathlib.Core.Path.{subst}
use os_prj.Run.{ok}
use os_prj.Queue.{QueueId, sleep, put, Links}
use os_prj.Queue.Represents.{Represents, Lists, IsFree, num_max_task, IsFree-append}
use os_prj.Kernel.{State}
use os_prj.Sched.{suspend, dispatch, scheduler}
use os_prj.Sched.Sleep.{due, clear}
use os_prj.Sched.Schedule.{requeued, woken, awake, demote, scheduler-requeued, scheduler-first}
use os_prj.System.Placed.{IsPlaced, put-IsPlaced, put-AreAll}
use os_prj.System.Counted.{Stays, put-object, requeued-object, awake-object}
use os_prj.System.Invariant.{IsAccounted-cong, IsSettled, IsOrderly, is_numbered}
use os_prj.System.Turn.{scheduler-ok, goes_on-IsFree, requeued-IsPlaced, turn_same, requeued-AreAll}

module _ (s : State) (L : Lists) (S : IsSettled s L) where
  module _ (k x : ℕ) (xs : List ℕ) (l : Links)
      (e : requeued (woken s L) (awake s L) (QueueId.ready k) ≡ x ∷ xs)
      (R : Represents l (put (requeued (woken s L) (awake s L)) (QueueId.ready k) xs))
      (free : IsFree x (put (requeued (woken s L) (awake s L)) (QueueId.ready k) xs))
      (range : (0 < x) × (x < num_max_task)) where
    abbrev turned : State
    turned = dispatch x (record (demote (woken s L)) { links = l })

    abbrev after : Lists
    after = put (requeued (woken s L) (awake s L)) (QueueId.ready k) xs

    dispatch_same :
        (a : ℕ)
        → ((turned.pcb a).pid ≡ (s.pcb a).pid)
          × ((turned.pcb a).lock_owned ≡ (s.pcb a).lock_owned)
          × ((turned.pcb a).continuation ≡ (s.pcb a).continuation)
    unfolding dispatch
    dispatch_same a = ground (arith, turn_same s L S a, eq_of_== x a)

    numbered_same : (a : ℕ) → is_numbered turned a ≡ is_numbered s a
    numbered_same a = ap (λ p. ltb_ℤ (pos 0) p) (dispatch_same a).0

    fewer :
        (a : ℕ)
        → has a xs ≡ true
        → has a (requeued (woken s L) (awake s L) (QueueId.ready k)) ≡ true
    fewer a h = rw e (ground (arith, h))

    dispatch-IsPlaced : IsPlaced turned.pcb after
    unfolding dispatch
    dispatch-IsPlaced q a h =
        let before =
          put-IsPlaced (demote (woken s L)).pcb (requeued (woken s L) (awake s L)) (QueueId.ready k)
            xs (requeued-IsPlaced s L S) fewer q a h in
        ground (arith, before, free q, eq_of_== x a)

    dispatch-IsOrderly : IsOrderly turned after
    unfolding dispatch suspend
    dispatch-IsOrderly = record {
      settled = record {
        queues = R;
        placed = dispatch-IsPlaced;
        members = λ q a h.
            numbered_same a
            ∙ put-AreAll (is_numbered s) (requeued (woken s L) (awake s L)) (requeued-AreAll s L S)
                (QueueId.ready k) xs fewer q a h;
        inside = range.1;
        leaves = rw (==_self x) refl;
        rested = λ h. absurd (let out = sym (free sleep) ∙ h in cc);
        caller = λ low.
            numbered_same x
            ∙ (requeued-AreAll s L S) (QueueId.ready k) x (rw e (ground (arith, ==_self x)));
        accounts =
            IsAccounted-cong s turned (λ a. (dispatch_same a).0) (λ a. (dispatch_same a).1)
              (λ m. refl) refl S.accounts;
      };
      runs = λ low. rw (==_self x) refl;
    }

    dispatch-Stays : Stays s turned L after
    unfolding dispatch suspend
    dispatch-Stays = record {
      semaphore = λ k. refl;
      num_waiting = λ k. refl;
      barrier = λ k. refl;
      mutex = λ m. refl;
      queues = λ q h.
          put-object (QueueId.ready k) q xs (requeued (woken s L) (awake s L)) refl h
          ∙ requeued-object (woken s L) q (awake s L) h
          ∙ awake-object s q L h;
    }

  -- With no sleeper that stops the loop, the head of the first ready queue that is not empty goes on.
  pub scheduler-picks :
      clear (due (suspend s)) (L sleep) ≡ true
      → (k x : ℕ) (xs : List ℕ) → k < 3
      → ((j : ℕ) → j < k → requeued (woken s L) (awake s L) (QueueId.ready j) ≡ [])
      → requeued (woken s L) (awake s L) (QueueId.ready k) ≡ x ∷ xs
      → (t : State) × (scheduler s ≡ ok t)
        × (t.current_running ≡ x)
        × IsOrderly t (put (requeued (woken s L) (awake s L)) (QueueId.ready k) xs)
        × ((a : ℕ) → (t.pcb a).continuation ≡ (s.pcb a).continuation)
  unfolding dispatch
  scheduler-picks safe k x xs low above e =
      let (l, e', R) =
        scheduler-first s S.queues S.inside safe (goes_on-IsFree s L S) k x xs low above e in
      let (l₁, _, R₁) = scheduler-requeued s S.queues S.inside safe (goes_on-IsFree s L S) in
      let free = IsFree-append R₁ (QueueId.ready k) [] x xs e in
      let range = R₁.inside (QueueId.ready k) x (rw e (ground arith)) in
      (
        turned k x xs l e R free range,
        e',
        refl,
        dispatch-IsOrderly k x xs l e R free range,
        λ a. (dispatch_same k x xs l e R free range a).2,
      )

  -- A call of the scheduler that returns leaves the kernel in order.
  pub scheduler-IsOrderly :
      (t : State) → scheduler s ≡ ok t → (L' : Lists) × IsOrderly t L' × Stays s t L L'
  scheduler-IsOrderly t run =
      let (k, x, xs, l, low, above, e, eq, R, free, range) = scheduler-ok s L S t run in
      let M = put (requeued (woken s L) (awake s L)) (QueueId.ready k) xs in
      let (O, stays) =
        subst (λ u. IsOrderly u M × Stays s u L M) (sym eq)
          (dispatch-IsOrderly k x xs l e R free range, dispatch-Stays k x xs l e R free range) in
      (M, O, stays)
