-- ===== src/System/Turn.antt =====
-- The parts of `scheduler` of kernel/sched/sched.c, on a settled kernel.
use os_prj.Prelude.{
  ℕ, zero, suc, ◌-◌, ◌<◌, ◌≡◌, ◌⊎◌, ◌∙◌, refl, sym, true, false, List, [], ◌∷◌, arith, has, ==_self,
  eq_of_==, if◌then◌else◌, Bool-cases, List-cases, inl, inr,
}
use os_prj.Run.{ok-inj, ok, fault}
use os_prj.Queue.{QueueId, sleep, put, Links}
use os_prj.Queue.Represents.{Represents, Lists, IsFree, num_max_task, not-has, IsFree-append}
use os_prj.Kernel.{State, TaskStatus, current, may_run, is_running}
use os_prj.Sched.{get_timer, suspend, demoted, dispatch, scheduler}
use os_prj.Sched.Unblock.{wake_all-status}
use os_prj.Sched.Sleep.{select, due, clear, swept-IsFree, check_sleeping-fault}
use os_prj.Sched.Schedule.{
  goes_on, requeued, woken, awake, demote, scheduler-requeued, scheduler-first, scheduler-nil,
}
use os_prj.Locking.Mutex.Owned.{wake_all-lock_owned}
use os_prj.System.Placed.{
  IsPlaced, pushed-IsPlaced, swept-IsPlaced, has-select, AreAll, pushed-AreAll, swept-AreAll,
}
use os_prj.System.Invariant.{IsSettled, is_numbered}

-- The first ready queue with a process, if one has any.
first_ready :
    (M : Lists)
    → ((j : ℕ) → j < 3 → M (QueueId.ready j) ≡ [])
      ⊎ ((k x : ℕ) × (xs : List ℕ) × (k < 3)
          × ((j : ℕ) → j < k → M (QueueId.ready j) ≡ [])
          × (M (QueueId.ready k) ≡ x ∷ xs))
first_ready M = elim (List-cases (M (QueueId.ready 0))) [
  | inr (x, xs, e) ↦ inr (0, x, xs, omega arith, λ j low. absurd (omega arith), e)
  | inl e₀ ↦ elim (List-cases (M (QueueId.ready 1))) [
    | inr (x, xs, e) ↦ inr (1, x, xs, omega arith, below_1 e₀, e)
    | inl e₁ ↦ elim (List-cases (M (QueueId.ready 2))) [
      | inr (x, xs, e) ↦ inr (2, x, xs, omega arith, below_2 e₀ e₁, e)
      | inl e₂ ↦ inl (below_3 e₀ e₁ e₂)
    ]
  ]
]
  where
    below_1 : M (QueueId.ready 0) ≡ [] → (j : ℕ) → j < 1 → M (QueueId.ready j) ≡ []
    below_1 e₀ zero low = e₀
    below_1 e₀ (suc j) low = absurd (omega arith)

    below_2 :
        M (QueueId.ready 0) ≡ []
        → M (QueueId.ready 1) ≡ []
        → (j : ℕ) → j < 2
        → M (QueueId.ready j) ≡ []
    below_2 e₀ e₁ zero low = e₀
    below_2 e₀ e₁ (suc zero) low = e₁
    below_2 e₀ e₁ (suc (suc j)) low = absurd (omega arith)

    below_3 :
        M (QueueId.ready 0) ≡ []
        → M (QueueId.ready 1) ≡ []
        → M (QueueId.ready 2) ≡ []
        → (j : ℕ) → j < 3
        → M (QueueId.ready j) ≡ []
    below_3 e₀ e₁ e₂ zero low = e₀
    below_3 e₀ e₁ e₂ (suc zero) low = e₁
    below_3 e₀ e₁ e₂ (suc (suc zero)) low = e₂
    below_3 e₀ e₁ e₂ (suc (suc (suc j))) low = absurd (omega arith)

module _ (s : State) (L : Lists) (S : IsSettled s L) where
  clear-eq-true : (t : State) → scheduler s ≡ ok t → clear (due (suspend s)) (L sleep) ≡ true
  unfolding scheduler suspend
  clear-eq-true t run = elim (Bool-cases (clear (due (suspend s)) (L sleep))) [
    | inl safe ↦ safe
    | inr unsafe ↦
        let bad = check_sleeping-fault (suspend s) S.queues unsafe in
        let stops : scheduler s ≡ fault = rw bad refl in absurd (let wrong = sym stops ∙ run in cc)
  ]

  -- A current process that sleeps is not woken by its own call.
  sleeps_on : has s.current_running (select (due (suspend s)) (L sleep)) ≡ false
  unfolding suspend get_timer
  sleeps_on =
      let me = s.current_running in
      let same : due (suspend s) me ≡ due s me = rw (==_self me) (ground arith) in
      has-select me (due (suspend s)) (L sleep) ∙ elim (Bool-cases (has me (L sleep))) [
        | inl here ↦ rw (same, S.rested here) refl
        | inr out ↦ rw out (ground arith)
      ]

  pub goes_on-IsFree : goes_on (woken s L) ≡ true → IsFree s.current_running L
  unfolding suspend
  goes_on-IsFree on q = elim (Bool-cases (has s.current_running (L q))) [
    | inr out ↦ out
    | inl here ↦
        let me = s.current_running in
        let status : ((woken s L).pcb me).status
            ≡ (if is_running (current s).status then TaskStatus.ready else (current s).status) =
          wake_all-status (select (due (suspend s)) (L sleep)) (suspend s).pcb me
          ∙ rw (sleeps_on, ==_self me) (ground arith) in
        ground (arith, status, S.placed q me here, S.leaves)
  ]

  -- The ways that a call which returns can have taken: the head of the first ready queue that is not
  -- empty goes on.
  pub scheduler-ok :
      (t : State)
      → scheduler s ≡ ok t
      → let M = requeued (woken s L) (awake s L) in
        (k x : ℕ) × (xs : List ℕ) × (l : Links) × (k < 3)
        × ((j : ℕ) → j < k → M (QueueId.ready j) ≡ [])
        × (M (QueueId.ready k) ≡ x ∷ xs)
        × (t ≡ dispatch x (record (demote (woken s L)) { links = l }))
        × Represents l (put M (QueueId.ready k) xs)
        × IsFree x (put M (QueueId.ready k) xs)
        × ((0 < x) × (x < num_max_task))
  scheduler-ok t run =
      let safe = clear-eq-true t run in
      elim (first_ready (requeued (woken s L) (awake s L))) [
        | inl none_ready ↦
            let stops = scheduler-nil s S.queues S.inside safe goes_on-IsFree none_ready in
            absurd (let wrong = sym stops ∙ run in cc)
        | inr (k, x, xs, low, above, e) ↦
            let (l, e', R) =
              scheduler-first s S.queues S.inside safe goes_on-IsFree k x xs low above e in
            let (l₁, _, R₁) = scheduler-requeued s S.queues S.inside safe goes_on-IsFree in
            (
              k,
              x,
              xs,
              l,
              low,
              above,
              e,
              ok-inj (sym run ∙ e'),
              R,
              IsFree-append R₁ (QueueId.ready k) [] x xs e,
              R₁.inside (QueueId.ready k) x (rw e (ground arith)),
            )
      ]

  status_me :
      ((woken s L).pcb s.current_running).status
      ≡ (if is_running (current s).status then TaskStatus.ready else (current s).status)
  unfolding suspend
  status_me =
      wake_all-status (select (due (suspend s)) (L sleep)) (suspend s).pcb s.current_running
      ∙ rw (sleeps_on, ==_self s.current_running) (ground arith)

  suspend-IsPlaced : IsPlaced (suspend s).pcb L
  unfolding suspend
  suspend-IsPlaced q a here =
      ground (arith, S.placed q a here, S.leaves, eq_of_== s.current_running a)

  awake-IsPlaced : IsPlaced (woken s L).pcb (awake s L)
  awake-IsPlaced =
      swept-IsPlaced (suspend s).pcb L (due (suspend s)) (λ r a o h. not-has S.queues sleep r a o h)
        suspend-IsPlaced

  demote-status : (a : ℕ) → ((demote (woken s L)).pcb a).status ≡ ((woken s L).pcb a).status
  demote-status a = ground (arith, eq_of_== (woken s L).current_running a)

  ready_again :
      goes_on (woken s L) ≡ true → ((woken s L).pcb s.current_running).status ≡ TaskStatus.ready
  unfolding suspend
  ready_again on =
      let runs : may_run ((woken s L).pcb s.current_running).status ≡ true = ground arith in
      ground (arith, runs, status_me, S.leaves)

  pub requeued-IsPlaced : IsPlaced (demote (woken s L)).pcb (requeued (woken s L) (awake s L))
  unfolding suspend
  requeued-IsPlaced = elim (Bool-cases (goes_on (woken s L))) [
    | inl on ↦
        let at : ((demote (woken s L)).pcb s.current_running).status ≡ TaskStatus.ready =
          demote-status s.current_running ∙ ready_again on in
        rw on (
          pushed-IsPlaced (woken s L).pcb (demote (woken s L)).pcb (awake s L)
            (QueueId.ready (demoted (current (woken s L)).priority - 1)) s.current_running
            awake-IsPlaced at (λ a other. demote-status a)
            (swept-IsFree s.current_running (due (suspend s)) L (goes_on-IsFree on)))
    | inr off ↦ rw off λ q a here. demote-status a ∙ awake-IsPlaced q a here
  ]

  suspend_same :
      (a : ℕ)
      → (((suspend s).pcb a).pid ≡ (s.pcb a).pid)
        × (((suspend s).pcb a).lock_owned ≡ (s.pcb a).lock_owned)
        × (((suspend s).pcb a).continuation ≡ (s.pcb a).continuation)
  unfolding suspend
  suspend_same a = ground (arith, eq_of_== s.current_running a)

  demote_same :
      (a : ℕ)
      → (((demote (woken s L)).pcb a).pid ≡ ((woken s L).pcb a).pid)
        × (((demote (woken s L)).pcb a).lock_owned ≡ ((woken s L).pcb a).lock_owned)
        × (((demote (woken s L)).pcb a).continuation ≡ ((woken s L).pcb a).continuation)
  demote_same a = ground (arith, eq_of_== (woken s L).current_running a)

  pub turn_same :
      (a : ℕ)
      → (((demote (woken s L)).pcb a).pid ≡ (s.pcb a).pid)
        × (((demote (woken s L)).pcb a).lock_owned ≡ (s.pcb a).lock_owned)
        × (((demote (woken s L)).pcb a).continuation ≡ (s.pcb a).continuation)
  turn_same a =
      let kept = wake_all-lock_owned (select (due (suspend s)) (L sleep)) (suspend s).pcb a in
      (
        (demote_same a).0 ∙ kept.1 ∙ (suspend_same a).0,
        (demote_same a).1 ∙ kept.0 ∙ (suspend_same a).1,
        (demote_same a).2 ∙ kept.3 ∙ (suspend_same a).2,
      )

  -- Everyone in a queue is a process.
  pub requeued-AreAll : AreAll (is_numbered s) (requeued (woken s L) (awake s L))
  unfolding suspend
  requeued-AreAll =
      let swept_all = swept-AreAll (is_numbered s) L S.members (due (suspend s)) in
      elim (Bool-cases (goes_on (woken s L))) [
        | inl on ↦ rw on (
            pushed-AreAll (is_numbered s) (awake s L) swept_all
              (QueueId.ready (demoted (current (woken s L)).priority - 1)) s.current_running
              (S.caller (ground arith)))
        | inr off ↦ rw off swept_all
      ]
