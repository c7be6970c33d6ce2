-- ===== src/Sched/Sleep.antt =====
-- `check_sleeping` of kernel/sched/sched.c: which sleepers it wakes, and when the defect of
-- `queue_remove` stops it.
use mathlib.Core.List.{append-nil, append_assoc}
use os_prj.Prelude.{
  ℕ, zero, suc, ◌∙◌, ap, sym, some, ◌+◌, ◌<◌, ◌≡◌, refl, Bool, true, false, ◌&&◌, ◌||◌, not, List,
  [], ◌∷◌, ◌++◌, arith, length, if◌then◌else◌, ltb, Bool-cases, inl, inr, has, has-append,
  has-middle,
}
use os_prj.Run.{ok, fault}
use os_prj.Queue.{QueueId, sleep, queue_eq, eq_of_queue_eq, put, Links}
use os_prj.Queue.Chain.{first}
use os_prj.Queue.Represents.{
  Represents, Lists, IsFree, num_max_task, IsFree-append, length-le, Represents-ext, next-append,
  head-eq-first,
}
use os_prj.Queue.Push.{pushed, queue_push-snoc}
use os_prj.Queue.Dequeue.{is_nil}
use os_prj.Queue.Remove.{queue_remove-ends, queue_remove-middle}
use os_prj.Kernel.{State, set_pcb}
use os_prj.Sched.{wake, get_timer, check_loop, check_sleeping}
use os_prj.Sched.Unblock.{wake_all}

-- The entries that pass a test, in order.
abbrev pub select : (ℕ → Bool) → List ℕ → List ℕ
select test [] = []
select test (x ∷ xs) = if test x then x ∷ select test xs else select test xs

-- The alarm of the process has gone off.
abbrev pub due : State → ℕ → Bool
due s a = ltb (s.pcb a).alarm_time (get_timer s)

-- Behind a sleeper that stays, only the last one may be due.
abbrev pub quiet : (ℕ → Bool) → List ℕ → Bool
quiet test [] = true
quiet test (x ∷ xs) = (is_nil xs || not (test x)) && quiet test xs

-- No sleeper in the middle of what the loop has left of the queue is due.
abbrev pub clear : (ℕ → Bool) → List ℕ → Bool
clear test [] = true
clear test (x ∷ xs) = if test x then clear test xs else quiet test xs

-- The loop stands behind the sleepers `kept`, with `xs` ahead.
abbrev clear_from : List ℕ → (ℕ → Bool) → List ℕ → Bool
clear_from kept test xs = if is_nil kept then clear test xs else quiet test xs

-- The contents after the due ones of `xs` were woken.
abbrev pub swept : List ℕ → (ℕ → Bool) → List ℕ → Lists → Lists
swept kept test xs L r =
    if queue_eq sleep r
    then kept ++ select (λ a. not (test a)) xs
    else if queue_eq (QueueId.ready 0) r
    then L r ++ select test xs
    else L r

is_nil-snoc : (xs : List ℕ) (x : ℕ) → is_nil (xs ++ x ∷ []) ≡ false
is_nil-snoc [] x = refl
is_nil-snoc (y ∷ ys) x = refl

-- One round at a sleeper that is due and stands at an end of the queue.
module _ {L : Lists} (s : State) (R : Represents s.links L) (kept : List ℕ) (x : ℕ) (xs : List ℕ)
    (e : L sleep ≡ kept ++ x ∷ xs) where
  abbrev Next : ℕ → Type 0
  Next n =
      (l : Links) × (check_loop (suc n) (first (x ∷ xs)) s
        ≡ check_loop n (first xs) (set_pcb x (wake (s.pcb x)) (record s { links = l })))
      × Represents l (pushed (QueueId.ready 0) x (put L sleep (kept ++ xs)))

  wake_round : (n : ℕ) → due s x ≡ true → (is_nil kept || is_nil xs) ≡ true → Next n
  unfolding check_loop
  wake_round n hit at_end =
      let (l₁, e₁, R₁) = queue_remove-ends R sleep x kept xs e at_end in
      let here = R.inside sleep x (rw e (has-middle kept x xs)) in
      let (l₂, e₂, R₂) =
        queue_push-snoc R₁ (QueueId.ready 0) x (IsFree-append R sleep kept x xs e) here.0 here.1 in
      (l₂, rw (hit, check_loop, e₁, e₂) refl, R₂)

  skip_round :
      (n : ℕ) → due s x ≡ false → check_loop (suc n) (first (x ∷ xs)) s ≡ check_loop n (first xs) s
  unfolding check_loop
  skip_round n miss = rw (miss, check_loop, next-append R sleep kept x xs e) refl

-- The loop wakes the due ones of `xs`, if none of them stands in the middle of the queue.
check_loop-swept :
    (test : ℕ → Bool) (xs kept : List ℕ) (n : ℕ) (L : Lists) (s : State)
    → length xs < n
    → L sleep ≡ kept ++ xs
    → ((a : ℕ) → due s a ≡ test a)
    → clear_from kept test xs ≡ true
    → Represents s.links L
    → (l : Links) × (check_loop n (first xs) s
        ≡ ok (record s { links = l; pcb = wake_all (select test xs) s.pcb }))
      × Represents l (swept kept test xs L)
unfolding get_timer
check_loop-swept test xs kept zero L s fuel e same safe R = absurd (omega arith)
check_loop-swept test [] kept (suc n) L s fuel e same safe R = (
  s.links,
  unfold check_loop in refl,
  Represents-ext L (swept kept test [] L)
      (λ r. ground (arith, eq_of_queue_eq sleep r, append-nil (L r), append-nil kept)) R,
)
check_loop-swept test (x ∷ xs) kept (suc n) L s fuel e same safe R = elim (Bool-cases (test x)) [
  | inl hit ↦
      let (l₁, e₁, R₁) = wake_round s R kept x xs e n (same x ∙ hit) (ground arith) in
      let s' = set_pcb x (wake (s.pcb x)) (record s { links = l₁ }) in
      let (l₂, e₂, R₂) =
        check_loop-swept test xs kept n _ s' (omega arith) refl
          (λ a. ground (arith, same a, same x)) (ground arith) R₁ in
      (
        l₂,
        rw hit (e₁ ∙ e₂),
        Represents-ext _ (swept kept test (x ∷ xs) L)
            (λ r. ground (arith, append_assoc (L r) (x ∷ []) (select test xs))) R₂,
      )
  | inr miss ↦
      let (l₂, e₂, R₂) =
        check_loop-swept test xs (kept ++ x ∷ []) n L s (omega arith)
          (e ∙ sym (append_assoc kept (x ∷ []) xs)) same (ground (arith, is_nil-snoc kept x)) R in
      (
        l₂,
        rw miss (skip_round s R kept x xs e n (same x ∙ miss) ∙ e₂),
        Represents-ext _ (swept kept test (x ∷ xs) L)
            (λ r. ground (arith, append_assoc kept (x ∷ []) (select (λ a. not (test a)) xs))) R₂,
      )
]

-- A sleeper that is due, between one that stays and another one: the round uses the NULL pointer.
fault_round :
    {L : Lists} (s : State) (kept : List ℕ) (x : ℕ) (xs : List ℕ) (n : ℕ)
    → Represents s.links L
    → L sleep ≡ kept ++ x ∷ xs
    → due s x ≡ true
    → (is_nil kept || is_nil xs) ≡ false
    → check_loop (suc n) (some x) s ≡ fault
unfolding check_loop
fault_round s [] x xs n R e hit middle = cc
fault_round s (k ∷ kept) x [] n R e hit middle = cc
fault_round s (k ∷ kept) x (y ∷ ys) n R e hit middle =
    rw (hit, check_loop, queue_remove-middle R sleep x k kept y ys e) refl

check_loop-fault :
    (test : ℕ → Bool) (xs kept : List ℕ) (n : ℕ) (L : Lists) (s : State)
    → length xs < n
    → L sleep ≡ kept ++ xs
    → ((a : ℕ) → due s a ≡ test a)
    → clear_from kept test xs ≡ false
    → Represents s.links L
    → check_loop n (first xs) s ≡ fault
unfolding get_timer
check_loop-fault test xs kept zero L s fuel e same unsafe R = absurd (omega arith)
check_loop-fault test [] kept (suc n) L s fuel e same unsafe R = ground arith
check_loop-fault test (x ∷ xs) kept (suc n) L s fuel e same unsafe R = elim (Bool-cases (test x)) [
  | inl hit ↦ elim (Bool-cases (is_nil kept || is_nil xs)) [
    | inl at_end ↦
        let (l₁, e₁, R₁) = wake_round s R kept x xs e n (same x ∙ hit) at_end in
        e₁
        ∙ check_loop-fault test xs kept n _ (set_pcb x (wake (s.pcb x)) (record s { links = l₁ }))
            (omega arith) refl (λ a. ground (arith, same a, same x)) (ground arith) R₁
    | inr middle ↦ fault_round s kept x xs n R e (same x ∙ hit) middle
  ]
  | inr miss ↦
      skip_round s R kept x xs e n (same x ∙ miss)
      ∙ check_loop-fault test xs (kept ++ x ∷ []) n L s (omega arith)
          (e ∙ sym (append_assoc kept (x ∷ []) xs)) same (ground (arith, is_nil-snoc kept x)) R
]

module _ {L : Lists} (s : State) (R : Represents s.links L) where
  from_head :
      check_loop (num_max_task + 1) (s.links.queue sleep).head s
      ≡ check_loop (num_max_task + 1) (first (L sleep)) s
  from_head = ap (λ h. check_loop (num_max_task + 1) h s) (head-eq-first R sleep)

  -- If the queues are in order and no sleeper in the middle of the sleep queue is due when the
  -- loop comes to it, `check_sleeping` ends, wakes exactly the processes whose alarm has gone off
  -- and moves them in their order behind those of the first ready queue; the others stay in their
  -- order.
  pub check_sleeping-swept :
      clear (due s) (L sleep) ≡ true
      → (l : Links) × (check_sleeping s
          ≡ ok (record s { links = l; pcb = wake_all (select (due s) (L sleep)) s.pcb }))
        × Represents l (swept [] (due s) (L sleep) L)
  unfolding check_sleeping
  check_sleeping-swept safe =
      let (l, e, R') =
        check_loop-swept (due s) (L sleep) [] (num_max_task + 1) L s
          (omega (arith, length-le R sleep)) refl (λ a. refl) safe R in
      (l, from_head ∙ e, R')

  -- If the queues are in order and a sleeper in the middle of the sleep queue is due when the loop
  -- comes to it, `check_sleeping` uses the NULL pointer.
  pub check_sleeping-fault : clear (due s) (L sleep) ≡ false → check_sleeping s ≡ fault
  unfolding check_sleeping
  check_sleeping-fault unsafe =
      from_head
      ∙ check_loop-fault (due s) (L sleep) [] (num_max_task + 1) L s
          (omega (arith, length-le R sleep)) refl (λ a. refl) unsafe R

has-select :
    (a : ℕ) (test : ℕ → Bool) (xs : List ℕ) → has a xs ≡ false → has a (select test xs) ≡ false
has-select a test [] out = refl
has-select a test (x ∷ xs) out = ground (arith, has-select a test xs)

-- A block that stands in no queue stands in none after the sleepers were woken.
pub swept-IsFree :
    (i : ℕ) (test : ℕ → Bool) (L : Lists) → IsFree i L → IsFree i (swept [] test (L sleep) L)
swept-IsFree i test L free r = ground (
  arith,
  free r,
  has-append i (L r) (select test (L sleep)),
  has-select i test (L sleep) (free sleep),
  has-select i (λ a. not (test a)) (L sleep) (free sleep),
)
