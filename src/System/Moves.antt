-- ===== src/System/Moves.antt =====
-- The changes that operations make to an orderly kernel: a block at the end of a queue, a queue or its
-- head woken.
use os_prj.Prelude.{
  ℕ, ◌<◌, ◌≡◌, ◌∙◌, refl, sym, ap, true, false, List, ◌∷◌, arith, has, ◌==◌, ==_self, eq_of_==, pos,
  ltb_ℤ, update, Distinct,
}
use os_prj.Queue.{QueueId, sleep, queue_eq, eq_of_queue_eq, put}
use os_prj.Queue.Represents.{Represents, Lists, IsFree, not-has}
use os_prj.Queue.Push.{pushed}
use os_prj.Kernel.{State, current, may_run, is_running}
use os_prj.Sched.{wake}
use os_prj.Sched.Unblock.{drained, wake_all, wake_all-status}
use os_prj.Sched.Sleep.{due}
use os_prj.System.Placed.{
  IsPlaced, status_in, pushed-IsPlaced, put-IsPlaced, drained-IsPlaced, AreAll, pushed-AreAll,
  put-AreAll, drained-AreAll,
}
use os_prj.System.Invariant.{
  IsAccounted, Agrees, Agrees-IsAccounted, IsSettled, IsOrderly, IsOrderly-IsFree, is_numbered,
}

module _ (s t : State) (L : Lists) (S : IsSettled s L)
    (same : t.current_running ≡ s.current_running) (pids : (a : ℕ) → (t.pcb a).pid ≡ (s.pcb a).pid)
    (A : IsAccounted t) where
  -- The parts of `IsSettled` that depend on the numbers only are kept.
  pub settle :
      (L' : Lists)
      → Represents t.links L'
      → IsPlaced t.pcb L'
      → AreAll (is_numbered s) L'
      → may_run (current t).status ≡ is_running (current t).status
      → (has t.current_running (L' sleep) ≡ true → due t t.current_running ≡ false)
      → IsSettled t L'
  settle L' R P all leaves rested = record {
    queues = R;
    placed = P;
    members = λ q a h. ap (λ p. ltb_ℤ (pos 0) p) (pids a) ∙ all q a h;
    inside = rw same S.inside;
    leaves = leaves;
    rested = rested;
    caller = λ low.
        ap (λ p. ltb_ℤ (pos 0) p) (pids t.current_running) ∙ rw same (S.caller (rw same at low));
    accounts = A;
  }

  -- All of a queue were woken, among them not the current process.
  pub drained-IsSettled :
      (q : QueueId)
      → queue_eq q sleep ≡ false
      → has s.current_running (L q) ≡ false
      → ((a : ℕ) → (t.pcb a).status ≡ (wake_all (L q) s.pcb a).status)
      → due t t.current_running ≡ due s s.current_running
      → Represents t.links (drained q L)
      → IsSettled t (drained q L)
  drained-IsSettled q other out table clock R =
      let me = s.current_running in
      let mine : (t.pcb me).status ≡ (s.pcb me).status =
        table me ∙ wake_all-status (L q) s.pcb me ∙ rw out refl in
      let P = drained-IsPlaced s.pcb L q (λ r a o h. not-has S.queues q r a o h) S.placed in
      settle (drained q L) R (λ r a h. table a ∙ P r a h)
        (drained-AreAll (is_numbered s) L S.members q) (rw (same, mine) S.leaves)
        (λ h. clock ∙ S.rested (rw (same, other) at h))

  -- The head of a queue was woken; it is not the current process.
  pub head-IsSettled :
      (q : QueueId) (x : ℕ) (xs : List ℕ)
      → queue_eq q sleep ≡ false
      → queue_eq q (QueueId.ready 0) ≡ false
      → L q ≡ x ∷ xs
      → has s.current_running (L q) ≡ false
      → ((a : ℕ) → (t.pcb a).status ≡ (update s.pcb x (wake (s.pcb x)) a).status)
      → due t t.current_running ≡ due s s.current_running
      → Represents t.links (pushed (QueueId.ready 0) x (put L q xs))
      → IsSettled t (pushed (QueueId.ready 0) x (put L q xs))
  head-IsSettled q x xs other not_ready e out table clock R =
      let me = s.current_running in
      let member : has x (L q) ≡ true = rw e (ground (arith, ==_self x)) in
      let apart : (x == me) ≡ false = ground (arith, eq_of_== x me) in
      let mine : (t.pcb me).status ≡ (s.pcb me).status = table me ∙ rw apart refl in
      let fewer : (a : ℕ) → has a xs ≡ true → has a (L q) ≡ true =
        λ a h. rw e (ground (arith, h)) in
      let distinct : Distinct (x ∷ xs) = rw e at (S.queues.distinct q) in
      let free : IsFree x (put L q xs) =
        λ r. ground (arith, not-has S.queues q r x, member, distinct, eq_of_queue_eq q r) in
      let P =
        pushed-IsPlaced s.pcb (update s.pcb x (wake (s.pcb x))) (put L q xs) (QueueId.ready 0) x
          (put-IsPlaced s.pcb L q xs S.placed fewer) (rw (==_self x) refl)
          (λ a o. ground (arith, eq_of_== x a, ==_self a)) free in
      settle (pushed (QueueId.ready 0) x (put L q xs)) R (λ r a h. table a ∙ P r a h)
        (pushed-AreAll (is_numbered s) (put L q xs)
          (put-AreAll (is_numbered s) L S.members q xs fewer) (QueueId.ready 0) x
          (S.members q x member))
        (rw (same, mine) S.leaves) (λ h. clock ∙ S.rested (rw (same, other) at h))

-- The current process stopped at the end of a queue, with the status of that queue.
module _ (s t : State) (L : Lists) (O : IsOrderly s L)
    (same : t.current_running ≡ s.current_running) (pids : (a : ℕ) → (t.pcb a).pid ≡ (s.pcb a).pid)
    (A : IsAccounted t) where
  pub pushed-IsSettled :
      (q : QueueId)
      → 0 < s.current_running
      → (current t).status ≡ status_in q
      → may_run (status_in q) ≡ false
      → ((a : ℕ) → (a == s.current_running) ≡ false → (t.pcb a).status ≡ (s.pcb a).status)
      → (queue_eq q sleep ≡ true → due t t.current_running ≡ false)
      → Represents t.links (pushed q s.current_running L)
      → IsSettled t (pushed q s.current_running L)
  pushed-IsSettled q low at stops others sleeps R =
      let S = O.settled in
      let me = s.current_running in
      let free = IsOrderly-IsFree s L O in
      let mine : (t.pcb me).status ≡ status_in q = rw same at at in
      settle s t L S same pids A (pushed q me L) R
        (pushed-IsPlaced s.pcb t.pcb L q me S.placed mine others free)
        (pushed-AreAll (is_numbered s) L S.members q me (S.caller low))
        (rw at (ground (arith, stops))) (λ h. ground (arith, sleeps, h, same, free sleep))

-- What has the same queues and statuses is as settled and as orderly as before.
module _ (s t : State) (L : Lists) (A : Agrees s t) (links : t.links ≡ s.links)
    (statuses : (a : ℕ) → (t.pcb a).status ≡ (s.pcb a).status) where
  status_me : (current t).status ≡ (current s).status
  status_me = statuses t.current_running ∙ ap (λ i. (s.pcb i).status) A.current

  pub same-IsSettled :
      due t t.current_running ≡ due s s.current_running → IsSettled s L → IsSettled t L
  same-IsSettled clock S =
      settle s t L S A.current A.pids (Agrees-IsAccounted A S.accounts) L (rw links S.queues)
        (λ q a h. statuses a ∙ S.placed q a h) S.members (rw status_me S.leaves)
        (λ h. clock ∙ S.rested (rw (A.current) at h))

  pub same-IsOrderly : IsOrderly s L → IsOrderly t L
  same-IsOrderly O =
      let S = O.settled in
      record {
        settled =
            settle s t L S A.current A.pids (Agrees-IsAccounted A S.accounts) L (rw links S.queues)
              (λ q a h. statuses a ∙ S.placed q a h) S.members (rw status_me S.leaves)
              (λ h.
                absurd (let out = sym (IsOrderly-IsFree s L O sleep) ∙ rw (A.current) at h in cc));
        runs = λ low. status_me ∙ O.runs (rw (A.current) at low);
      }
