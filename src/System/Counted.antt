-- ===== src/System/Counted.antt =====
-- How the objects of kernel/locking/ agree with the queues of those that wait for them.
use os_prj.Prelude.{
  ℕ, ◌-◌, ◌≡◌, ◌∙◌, refl, sym, ap, Bool, true, false, List, arith, has, length, ℤ, pos, neg_part,
  ltb_ℤ,
}
use os_prj.Queue.{
  QueueId, sleep, of_mutex, of_semaphore, of_barrier, of_condition, put, eq_of_queue_eq,
}
use os_prj.Queue.Represents.{Lists}
use os_prj.Queue.Push.{pushed}
use os_prj.Kernel.{State, MutexLock, Barrier, locked, current}
use os_prj.Sched.{demoted}
use os_prj.Sched.Unblock.{drained}
use os_prj.System.Invariant.{IsOrderly}
use os_prj.Sched.Schedule.{requeued, awake}

-- A semaphore's value below zero, `num_waiting`, and `num_now` of a barrier that expects somebody count
-- those that wait, fewer than the barrier expects, and nobody waits for a lock that is free.
pub record Counts (semaphore num_waiting : ℕ → ℤ) (barrier : ℕ → Barrier) (mutex : ℕ → MutexLock)
    (L : Lists) : Type 0 where
  pub semaphores : (k : ℕ) → neg_part (semaphore k) ≡ length (L (of_semaphore k))
  pub conditions : (k : ℕ) → num_waiting k ≡ pos (length (L (of_condition k)))
  pub barriers :
      (k : ℕ)
      → ltb_ℤ (pos 0) (barrier k).num_expected ≡ true
      → ((barrier k).num_now ≡ pos (length (L (of_barrier k))))
        × (ltb_ℤ (barrier k).num_now (barrier k).num_expected ≡ true)
  pub locks : (m a : ℕ) → has a (L (of_mutex m)) ≡ true → (mutex m).status ≡ locked

abbrev pub IsCounted : State → Lists → Type 0
IsCounted s L = Counts s.semaphore s.num_waiting s.barrier s.mutex L

abbrev pub SameObjects : State → State → Type 0
SameObjects s t =
    (t.semaphore ≡ s.semaphore)
    × (t.num_waiting ≡ s.num_waiting)
    × (t.barrier ≡ s.barrier)
    × (t.mutex ≡ s.mutex)

pub Same-IsCounted : (s t : State) (L : Lists) → SameObjects s t → IsCounted s L → IsCounted t L
Same-IsCounted s t L (values, numbers, barriers, locks) N = rw (values, numbers, barriers, locks) N

-- Some contents of the queues make the state orderly, and the objects count them right.
abbrev pub InOrder : State → Type 0
InOrder s = (L : Lists) × IsOrderly s L × IsCounted s L

-- The queues of the objects that `IsCounted` is about.
abbrev pub of_object : QueueId → Bool
of_object (of_mutex m) = true
of_object (of_semaphore k) = true
of_object (of_barrier k) = true
of_object (of_condition k) = true
of_object q = false

-- The objects and their queues are as before.
pub record Stays (s t : State) (L M : Lists) : Type 0 where
  pub semaphore : (k : ℕ) → t.semaphore k ≡ s.semaphore k
  pub num_waiting : (k : ℕ) → t.num_waiting k ≡ s.num_waiting k
  pub barrier : (k : ℕ) → t.barrier k ≡ s.barrier k
  pub mutex : (m : ℕ) → (t.mutex m).status ≡ (s.mutex m).status
  pub queues : (q : QueueId) → of_object q ≡ true → M q ≡ L q

pub Stays-IsCounted : {s t : State} {L M : Lists} → Stays s t L M → IsCounted s L → IsCounted t M
Stays-IsCounted S N = record {
  semaphores = λ k.
      ap neg_part (S.semaphore k)
      ∙ N.semaphores k
      ∙ ap length (sym (S.queues (of_semaphore k) refl));
  conditions = λ k.
      S.num_waiting k
      ∙ N.conditions k
      ∙ ap (λ xs. pos (length xs)) (sym (S.queues (of_condition k) refl));
  barriers = λ k expects.
      let (numbers, fewer) =
        N.barriers k
          (ap (λ (b : Barrier). ltb_ℤ (pos 0) b.num_expected) (sym (S.barrier k)) ∙ expects) in
      (
        ap (λ (b : Barrier). b.num_now) (S.barrier k)
            ∙ numbers
            ∙ ap (λ xs. pos (length xs)) (sym (S.queues (of_barrier k) refl)),
        ap (λ (b : Barrier). ltb_ℤ b.num_now b.num_expected) (S.barrier k) ∙ fewer,
      );
  locks = λ m a h. S.mutex m ∙ N.locks m a (ap (has a) (sym (S.queues (of_mutex m) refl)) ∙ h);
}

-- The queues of the objects are as before.
pub apart-IsCounted :
    (s : State) (L M : Lists)
    → ((q : QueueId) → of_object q ≡ true → M q ≡ L q)
    → IsCounted s L
    → IsCounted s M
apart-IsCounted s L M same =
    let S : Stays s s L M = record {
      semaphore = λ k. refl;
      num_waiting = λ k. refl;
      barrier = λ k. refl;
      mutex = λ m. refl;
      queues = same;
    } in
    Stays-IsCounted S

-- What happens to another queue leaves those of the objects alone.
pub pushed-object :
    (q r : QueueId) (a : ℕ) (L : Lists)
    → of_object q ≡ false
    → of_object r ≡ true
    → pushed q a L r ≡ L r
pushed-object q r a L other here = ground (arith, eq_of_queue_eq q r)

pub put-object :
    (q r : QueueId) (xs : List ℕ) (L : Lists)
    → of_object q ≡ false
    → of_object r ≡ true
    → put L q xs r ≡ L r
put-object q r xs L other here = ground (arith, eq_of_queue_eq q r)

pub drained-object :
    (q r : QueueId) (L : Lists) → of_object q ≡ false → of_object r ≡ true → drained q L r ≡ L r
drained-object q r L other here =
    ground (arith, eq_of_queue_eq q r, eq_of_queue_eq (QueueId.ready 0) r)

pub requeued-object :
    (s : State) (r : QueueId) (L : Lists) → of_object r ≡ true → requeued s L r ≡ L r
requeued-object s r L here = ground (
  arith,
  pushed-object (QueueId.ready (demoted (current s).priority - 1)) r s.current_running L refl here,
)

pub awake-object : (s : State) (r : QueueId) (L : Lists) → of_object r ≡ true → awake s L r ≡ L r
awake-object s r L here = ground (arith, eq_of_queue_eq sleep r, eq_of_queue_eq (QueueId.ready 0) r)
