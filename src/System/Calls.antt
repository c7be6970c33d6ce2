-- ===== src/System/Calls.antt =====
-- `do_scheduler` of arch/mips/kernel/entry.S and the functions of kernel/sched/sched.c that block and wake, on
-- an orderly kernel.
use os_prj.Prelude.{
  ℕ, ◌<◌, ◌≡◌, ◌∙◌, refl, sym, false, List, [], ◌∷◌, arith, has, ◌==◌, ==_self, eq_of_==, update,
  List-cases, inl, inr,
}
use mathlib.Core.Path.{subst}
use os_prj.Run.{ok-inj, ok, fault}
use os_prj.Queue.{QueueId, sleep, queue_eq, put, Links}
use os_prj.Queue.Represents.{Lists}
use os_prj.Queue.Push.{pushed}
use os_prj.Queue.Dequeue.{queue_dequeue-nil}
use os_prj.Kernel.{Pcb, State, Continuation, blocked, current, set_current, set_pcb}
use os_prj.Sched.{get_timer, wake, do_scheduler, do_block, do_unblock_one, do_unblock_all}
use os_prj.Sched.Unblock.{
  wake_all, wake_all-status, drained, do_block-pushed, do_unblock_one-head, do_unblock_all-drained,
}
use os_prj.Sched.Sleep.{due}
use os_prj.System.Placed.{status_in}
use os_prj.System.Counted.{IsCounted, SameObjects, InOrder, Stays-IsCounted}
use os_prj.System.Invariant.{Agrees, Agrees-IsAccounted, IsSettled, IsOrderly, IsOrderly-IsFree}
use os_prj.Locking.Mutex.Owned.{wake_all-lock_owned}
use os_prj.System.Pick.{scheduler-IsOrderly}
use os_prj.System.Moves.{drained-IsSettled, head-IsSettled, pushed-IsSettled, same-IsSettled}

pub do_scheduler-InOrder :
    (k : Continuation) (s t : State) (L : Lists)
    → IsSettled s L
    → IsCounted s L
    → do_scheduler k s ≡ ok t
    → InOrder t
unfolding do_scheduler get_timer
do_scheduler-InOrder k s t L S N run =
    let u = set_current (record (current s) { continuation = k }) s in
    let A : Agrees s u = record {
      current = refl;
      pids = λ a. ground (arith, eq_of_== s.current_running a);
      owns = λ a. ground (arith, eq_of_== s.current_running a);
      locks = λ m. refl;
      next = refl;
    } in
    let clock : due u u.current_running ≡ due s s.current_running =
      rw (==_self s.current_running) refl in
    let (M, O, stays) =
      scheduler-IsOrderly u L
        (same-IsSettled s u L A refl (λ a. ground (arith, eq_of_== s.current_running a)) clock S) t
        run in
    (M, O, Stays-IsCounted stays N)

-- The current process stops at the end of a queue of those that wait.
module _ (s : State) (L : Lists) (O : IsOrderly s L) (low : 0 < s.current_running) where
  pub do_block-IsSettled :
      (q : QueueId)
      → status_in q ≡ blocked
      → queue_eq q sleep ≡ false
      → (u : State) × (do_block q s ≡ ok u)
        × Agrees s u
        × IsSettled u (pushed q s.current_running L)
        × (u.pcb ≡ update s.pcb s.current_running (record (current s) { status = blocked }))
        × SameObjects s u
  do_block-IsSettled q at not_sleep =
      let me = s.current_running in
      let (l, e, R) =
        do_block-pushed q s O.settled.queues (IsOrderly-IsFree s L O) low O.settled.inside in
      let u = set_current (record (current s) { status = blocked }) (record s { links = l }) in
      let A : Agrees s u = record {
        current = refl;
        pids = λ a. ground (arith, eq_of_== me a);
        owns = λ a. ground (arith, eq_of_== me a);
        locks = λ m. refl;
        next = refl;
      } in
      (
        u,
        e,
        A,
        pushed-IsSettled s u L O refl A.pids (Agrees-IsAccounted A O.settled.accounts) q low
            (rw (==_self me) (sym at)) (rw at refl)
            (λ a o. ground (arith, eq_of_== me a, ==_self a))
            (λ h. absurd (let wrong = sym not_sleep ∙ h in cc)) R,
        refl,
        (refl, refl, refl, refl),
      )

-- Waking leaves the numbers and the locks of all processes alone.
wake_all-Agrees :
    (s : State) (l : Links) (xs : List ℕ)
    → Agrees s (record s { links = l; pcb = wake_all xs s.pcb })
wake_all-Agrees s l xs = record {
  current = refl;
  pids = λ a. (wake_all-lock_owned xs s.pcb a).1;
  owns = λ a. (wake_all-lock_owned xs s.pcb a).0;
  locks = λ m. refl;
  next = refl;
}

wake_all-alarm :
    (xs : List ℕ) (pcb : ℕ → Pcb) (a : ℕ) → (wake_all xs pcb a).alarm_time ≡ (pcb a).alarm_time
wake_all-alarm [] pcb a = refl
wake_all-alarm (x ∷ xs) pcb a =
    ground (arith, wake_all-alarm xs (update pcb x (wake (pcb x))) a, eq_of_== x a)

-- Processes other than the current one are woken.
module _ (s : State) (L : Lists) (S : IsSettled s L) (q : QueueId)
    (not_sleep : queue_eq q sleep ≡ false) (not_ready : queue_eq q (QueueId.ready 0) ≡ false)
    (out : has s.current_running (L q) ≡ false) where
  pub do_unblock_all-IsSettled :
      (u : State) × (do_unblock_all q s ≡ ok u)
      × Agrees s u
      × IsSettled u (drained q L)
      × ((current u).status ≡ (current s).status)
      × (u.pcb ≡ wake_all (L q) s.pcb)
      × SameObjects s u
  unfolding get_timer
  do_unblock_all-IsSettled =
      let me = s.current_running in
      let (l, e, R) = do_unblock_all-drained q s S.queues not_ready in
      let u : State = record s { links = l; pcb = wake_all (L q) s.pcb } in
      let A = wake_all-Agrees s l (L q) in
      let clock : due u u.current_running ≡ due s me = rw (wake_all-alarm (L q) s.pcb me) refl in
      (
        u,
        e,
        A,
        drained-IsSettled s u L S refl A.pids (Agrees-IsAccounted A S.accounts) q not_sleep out
            (λ a. refl) clock R,
        wake_all-status (L q) s.pcb me ∙ rw out refl,
        refl,
        (refl, refl, refl, refl),
      )

  pub do_unblock_one-IsSettled :
      (u : State)
      → do_unblock_one q s ≡ ok u
      → (x : ℕ) × (xs : List ℕ) × (L q ≡ x ∷ xs)
        × Agrees s u
        × IsSettled u (pushed (QueueId.ready 0) x (put L q xs))
        × ((current u).status ≡ (current s).status)
        × SameObjects s u
  unfolding do_unblock_one get_timer
  do_unblock_one-IsSettled u run = elim (List-cases (L q)) [
    | inl empty ↦
        let stops : do_unblock_one q s ≡ fault = rw (queue_dequeue-nil S.queues q empty) refl in
        absurd (let wrong = sym stops ∙ run in cc)
    | inr (x, xs, e) ↦
        let me = s.current_running in
        let (l, e', R) = do_unblock_one-head q s x xs S.queues e in
        let v = set_pcb x (wake (s.pcb x)) (record s { links = l }) in
        let apart : (x == me) ≡ false =
          (let o : has me (x ∷ xs) ≡ false = rw e at out in
            ground (arith, eq_of_== x me, ==_self x)) in
        let A : Agrees s v = record {
          current = refl;
          pids = λ a. ground (arith, eq_of_== x a);
          owns = λ a. ground (arith, eq_of_== x a);
          locks = λ m. refl;
          next = refl;
        } in
        let clock : due v v.current_running ≡ due s me = rw apart refl in
        let settled =
          head-IsSettled s v L S refl A.pids (Agrees-IsAccounted A S.accounts) q x xs not_sleep
            not_ready e out (λ a. refl) clock R in
        let (B, settled', status, same) =
          subst
            (λ w.
              Agrees s w
              × IsSettled w (pushed (QueueId.ready 0) x (put L q xs))
              × ((current w).status ≡ (current s).status)
              × SameObjects s w)
            (ok-inj (sym e' ∙ run)) (A, settled, rw apart refl, (refl, refl, refl, refl)) in
        (x, xs, e, B, settled', status, same)
  ]
