-- ===== src/Sched/Schedule.antt =====
-- `scheduler` of kernel/sched/sched.c: which process runs next.
use os_prj.Prelude.{
  ℕ, zero, suc, ◌-◌, ◌<◌, ◌≡◌, ◌∙◌, refl, Bool, true, ◌&&◌, not, List, [], ◌∷◌, arith, ◌==◌,
  ==_self, if◌then◌else◌, Bool-cases, inl, inr,
}
use os_prj.Run.{ok, fault, ◌>>=◌}
use os_prj.Queue.{QueueId, sleep, put, Links}
use os_prj.Queue.Represents.{Represents, Lists, IsFree, num_max_task}
use os_prj.Queue.Push.{pushed, queue_push-snoc}
use os_prj.Queue.Dequeue.{queue_is_empty-is_nil, queue_dequeue-cons, queue_dequeue-nil}
use os_prj.Kernel.{State, current, set_current, may_run}
use os_prj.Sched.{demoted, ready_slot, suspend, requeue, pick, dispatch, scheduler}
use os_prj.Sched.Unblock.{wake_all}
use os_prj.Sched.Sleep.{select, due, clear, swept, swept-IsFree, check_sleeping-swept}

-- The first ready queue that is not empty gives up its head.
module _ {l : Links} {L : Lists} (R : Represents l L) where
  pub pick-first :
      (k x : ℕ) (xs : List ℕ)
      → k < 3
      → ((j : ℕ) → j < k → L (QueueId.ready j) ≡ [])
      → L (QueueId.ready k) ≡ x ∷ xs
      → (l' : Links) × (pick l ≡ ok (x, l')) × Represents l' (put L (QueueId.ready k) xs)
  unfolding pick
  pick-first zero x xs low above e =
      let (l', e', R') = queue_dequeue-cons R (QueueId.ready 0) x xs e in
      (l', rw (queue_is_empty-is_nil R (QueueId.ready 0), e) e', R')
  pick-first (suc zero) x xs low above e =
      let (l', e', R') = queue_dequeue-cons R (QueueId.ready 1) x xs e in
      (
        l',
        rw
            (
              queue_is_empty-is_nil R (QueueId.ready 0),
              queue_is_empty-is_nil R (QueueId.ready 1),
              above 0 (omega arith),
              e,
            )
            e',
        R',
      )
  pick-first (suc (suc zero)) x xs low above e =
      let (l', e', R') = queue_dequeue-cons R (QueueId.ready 2) x xs e in
      (
        l',
        rw
            (
              queue_is_empty-is_nil R (QueueId.ready 0),
              queue_is_empty-is_nil R (QueueId.ready 1),
              above 0 (omega arith),
              above 1 (omega arith),
            )
            e',
        R',
      )
  pick-first (suc (suc (suc k))) x xs low above e = absurd (omega arith)

  -- With nothing ready the kernel uses the NULL head of the last queue.
  pub pick-nil : ((j : ℕ) → j < 3 → L (QueueId.ready j) ≡ []) → pick l ≡ fault
  unfolding pick
  pick-nil none_ready =
      rw
        (
          queue_is_empty-is_nil R (QueueId.ready 0),
          queue_is_empty-is_nil R (QueueId.ready 1),
          none_ready 0 (omega arith),
          none_ready 1 (omega arith),
        )
        (queue_dequeue-nil R (QueueId.ready 2) (none_ready 2 (omega arith)))

-- The current process goes back to a ready queue.
abbrev pub goes_on : State → Bool
goes_on s = not (s.current_running == 0) && may_run (current s).status

-- The contents after the current process was queued again, if it goes on.
abbrev pub requeued : State → Lists → Lists
requeued s L =
    if goes_on s
    then pushed (QueueId.ready (demoted (current s).priority - 1)) s.current_running L
    else L

abbrev pub demote : State → State
demote s = set_current (record (current s) { priority = demoted (current s).priority }) s

requeue-requeued :
    {L : Lists} (s : State)
    → Represents s.links L
    → s.current_running < num_max_task
    → (goes_on s ≡ true → IsFree s.current_running L)
    → (l : Links) × (requeue s ≡ ok (record (demote s) { links = l })) × Represents l (requeued s L)
unfolding requeue
requeue-requeued {L} s R high free = elim (Bool-cases (goes_on s)) [
  | inl on ↦
      let slot : ready_slot (demoted (current s).priority)
          ≡ ok (QueueId.ready (demoted (current s).priority - 1)) =
        ground arith in
      let (l, e, R') =
        queue_push-snoc R (QueueId.ready (demoted (current s).priority - 1)) s.current_running
          (free on) (ground arith) high in
      (l, rw (==_self s.current_running, on, slot, e) refl, rw on R')
  | inr off ↦ (s.links, rw (==_self s.current_running, off) refl, rw off R)
]

-- The state and the contents when `check_sleeping` returned to the scheduler.
abbrev pub woken : State → Lists → State
woken s L = let u = suspend s in record u { pcb = wake_all (select (due u) (L sleep)) u.pcb }

abbrev pub awake : State → Lists → Lists
awake s L = swept [] (due (suspend s)) (L sleep) L

module _ {L : Lists} (s : State) (R : Represents s.links L)
    (high : s.current_running < num_max_task) (safe : clear (due (suspend s)) (L sleep) ≡ true)
    (free : goes_on (woken s L) ≡ true → IsFree s.current_running L) where
  -- The scheduler up to the choice of the next process.
  pub scheduler-requeued :
      (l : Links) × (scheduler s
        ≡ (do (i, l') ← pick l; ok (dispatch i (record (demote (woken s L)) { links = l' }))))
      × Represents l (requeued (woken s L) (awake s L))
  unfolding scheduler suspend
  scheduler-requeued =
      let (l₁, e₁, R₁) = check_sleeping-swept (suspend s) R safe in
      let (l₂, e₂, R₂) =
        requeue-requeued (record (woken s L) { links = l₁ }) R₁ high
          λ on. swept-IsFree s.current_running (due (suspend s)) L (free on) in
      (l₂, rw (e₁, e₂) refl, R₂)

  -- `scheduler` wakes the sleepers that are due, queues the old process again with less priority
  -- if it still may run, and goes on with the head of the first ready queue that is not empty; no
  -- other queue changes. Conditions: the queues are in order, the old process has a block of the
  -- table, no sleeper in the middle of the sleep queue is due, and an old process that goes on
  -- stands in no queue.
  pub scheduler-first :
      (k x : ℕ) (xs : List ℕ)
      → k < 3
      → ((j : ℕ) → j < k → requeued (woken s L) (awake s L) (QueueId.ready j) ≡ [])
      → requeued (woken s L) (awake s L) (QueueId.ready k) ≡ x ∷ xs
      → (l : Links) × (scheduler s ≡ ok (dispatch x (record (demote (woken s L)) { links = l })))
        × Represents l (put (requeued (woken s L) (awake s L)) (QueueId.ready k) xs)
  scheduler-first k x xs low above e =
      let (l₁, e₁, R₁) = scheduler-requeued in
      let (l₂, e₂, R₂) = pick-first R₁ k x xs low above e in (l₂, e₁ ∙ rw e₂ refl, R₂)

  -- With no process left to run after the sleepers that are due were woken, `scheduler` uses the
  -- NULL head of the last ready queue. The conditions on the queues and the old process are those
  -- of `scheduler-first`.
  pub scheduler-nil :
      ((j : ℕ) → j < 3 → requeued (woken s L) (awake s L) (QueueId.ready j) ≡ [])
      → scheduler s ≡ fault
  scheduler-nil none_ready =
      let (l₁, e₁, R₁) = scheduler-requeued in e₁ ∙ rw (pick-nil R₁ none_ready) refl
