-- ===== src/Sched/Unblock.antt =====
-- `do_block`, `do_unblock_one` and `do_unblock_all` of kernel/sched/sched.c
use mathlib.Core.List.{append-nil, append_assoc}
use os_prj.Prelude.{
  ℕ, zero, suc, ◌+◌, ◌<◌, ◌≡◌, refl, false, has, has-append, ==_self, eq_of_==, List, [], ◌∷◌, ◌++◌,
  arith, length, update, if◌then◌else◌,
}
use os_prj.Run.{ok}
use os_prj.Queue.{QueueId, queue_eq, queue_eq_self, queue_eq_comm, eq_of_queue_eq, put, Links}
use os_prj.Queue.Represents.{
  Represents, Lists, IsFree, num_max_task, IsFree-append, length-le, Represents-ext,
}
use os_prj.Queue.Push.{pushed, queue_push-snoc}
use os_prj.Queue.Dequeue.{queue_is_empty-is_nil, queue_dequeue-cons}
use os_prj.Kernel.{Pcb, TaskStatus, blocked, State, set_pcb, current, set_current}
use os_prj.Sched.{wake, do_block, do_unblock_one, unblock_loop, do_unblock_all}

-- The table after the processes of a list were woken.
abbrev pub wake_all : List ℕ → (ℕ → Pcb) → ℕ → Pcb
wake_all [] pcb = pcb
wake_all (x ∷ xs) pcb = wake_all xs (update pcb x (wake (pcb x)))

-- The contents after all of `q` moved to the end of the first ready queue.
abbrev pub drained : QueueId → Lists → Lists
drained q L r =
    if queue_eq q r then [] else if queue_eq (QueueId.ready 0) r then L r ++ L q else L r

-- The contents after the head of a queue, if there is one, moved to the first ready queue.
abbrev pub served_by : QueueId → List ℕ → Lists → Lists
served_by q [] L = L
served_by q (x ∷ xs) L = pushed (QueueId.ready 0) x (put L q xs)

abbrev pub served : QueueId → Lists → Lists
served q L = served_by q (L q) L

-- The table after the head of a queue, if there is one, was woken.
abbrev pub roused : List ℕ → (ℕ → Pcb) → ℕ → Pcb
roused [] pcb = pcb
roused (x ∷ xs) pcb = update pcb x (wake (pcb x))

module _ {L : Lists} (q : QueueId) where
  -- The current process becomes blocked and stands at the end of the queue.
  pub do_block-pushed :
      (s : State)
      → Represents s.links L
      → IsFree s.current_running L
      → 0 < s.current_running
      → s.current_running < num_max_task
      → (l : Links) × (do_block q s
          ≡ ok (set_current (record (current s) { status = blocked }) (record s { links = l })))
        × Represents l (pushed q s.current_running L)
  unfolding do_block
  do_block-pushed s R free low high =
      let (l, e, R') = queue_push-snoc R q s.current_running free low high in (l, rw e, R')

  -- If the queues are in order, `do_unblock_one` wakes the head of a queue that is not empty and
  -- moves it to the end of the first ready queue.
  pub do_unblock_one-head :
      (s : State) (x : ℕ) (xs : List ℕ)
      → Represents s.links L
      → L q ≡ x ∷ xs
      → (l : Links) × (do_unblock_one q s
          ≡ ok (set_pcb x (wake (s.pcb x)) (record s { links = l })))
        × Represents l (pushed (QueueId.ready 0) x (put L q xs))
  unfolding do_unblock_one
  do_unblock_one-head s x xs R e =
      let (l, e₁, R₁) = queue_dequeue-cons R q x xs e in
      let here = R.inside q x (rw e (ground arith)) in
      let (l', e₂, R₂) =
        queue_push-snoc R₁ (QueueId.ready 0) x (IsFree-append R q [] x xs e) here.0 here.1 in
      (l', rw (e₁, e₂), R₂)

unblock_loop-drained :
    (q : QueueId)
    → queue_eq q (QueueId.ready 0) ≡ false
    → (xs : List ℕ) (n : ℕ) (L : Lists) (s : State) → length xs < n
    → L q ≡ xs
    → Represents s.links L
    → (l : Links) × (unblock_loop n q s ≡ ok (record s { links = l; pcb = wake_all xs s.pcb }))
      × Represents l (drained q L)
unfolding unblock_loop
unblock_loop-drained q other xs zero L s fuel e R = absurd (omega arith)
unblock_loop-drained q other [] (suc n) L s fuel e R = (
  s.links,
  rw (queue_is_empty-is_nil R q, unblock_loop, e),
  Represents-ext L (drained q L) (λ r. ground (arith, eq_of_queue_eq q r, append-nil (L r))) R,
)
unblock_loop-drained q other (x ∷ xs) (suc n) L s fuel e R =
    let (l₁, e₁, R₁) = queue_dequeue-cons R q x xs e in
    let here = R.inside q x (rw e (ground arith)) in
    let (l₂, e₂, R₂) =
      queue_push-snoc R₁ (QueueId.ready 0) x (IsFree-append R q [] x xs e) here.0 here.1 in
    let s' = set_pcb x (wake (s.pcb x)) (record s { links = l₂ }) in
    let (l₃, e₃, R₃) =
      unblock_loop-drained q other xs n (pushed (QueueId.ready 0) x (put L q xs)) s' (omega arith)
        (ground (arith, queue_eq_self q, queue_eq_comm q (QueueId.ready 0))) R₂ in
    (
      l₃,
      rw (queue_is_empty-is_nil R q, unblock_loop, e, e₁, e₂) e₃,
      Represents-ext _ (drained q L)
          (λ r. ground (arith, append_assoc (L r) (x ∷ []) xs, queue_eq_self q)) R₃,
    )

-- If the queues are in order, `do_unblock_all` on a queue other than the first ready queue ends,
-- wakes every process of the queue, and moves them in their order behind those of the first ready
-- queue.
pub do_unblock_all-drained :
    {L : Lists} (q : QueueId) (s : State)
    → Represents s.links L
    → queue_eq q (QueueId.ready 0) ≡ false
    → (l : Links) × (do_unblock_all q s ≡ ok (record s { links = l; pcb = wake_all (L q) s.pcb }))
      × Represents l (drained q L)
unfolding do_unblock_all
do_unblock_all-drained {L} q s R other =
    unblock_loop-drained q other (L q) (num_max_task + 1) L s (omega (arith, length-le R q)) refl R

-- Moving all of an empty queue changes nothing.
pub drained-nil : (q : QueueId) (L : Lists) → L q ≡ [] → (r : QueueId) → L r ≡ drained q L r
drained-nil q L e r = ground (arith, eq_of_queue_eq q r, append-nil (L r))

-- Woken processes are ready, and the others keep their status.
pub wake_all-status :
    (xs : List ℕ) (pcb : ℕ → Pcb) (a : ℕ)
    → (wake_all xs pcb a).status ≡ (if has a xs then TaskStatus.ready else (pcb a).status)
wake_all-status [] pcb a = refl
wake_all-status (x ∷ xs) pcb a =
    ground (arith, wake_all-status xs (update pcb x (wake (pcb x))) a, eq_of_== x a, ==_self a)

-- A block that stands in no queue stands in none after a queue was emptied.
pub drained-IsFree : (i : ℕ) (q : QueueId) (L : Lists) → IsFree i L → IsFree i (drained q L)
drained-IsFree i q L free r = ground (arith, free r, free q, has-append i (L r) (L q))
