-- ===== src/System/Invariant.antt =====
-- What holds whenever the kernel is not in the middle of an operation.
use os_prj.Prelude.{
  ℕ, ◌<◌, ◌≡◌, ◌∙◌, sym, ap, Bool, true, false, arith, has, pos, ltb_ℤ, Bool-cases, inl, inr,
}
use os_prj.Queue.{QueueId, sleep}
use os_prj.Queue.Represents.{Represents, Lists, IsFree, num_max_task}
use os_prj.Kernel.{State, MutexLock, running, current, may_run, is_running}
use os_prj.Locking.Mutex.Owned.{holds, IsOwned}
use os_prj.Process.Spawn.{IsFresh}
use os_prj.Sched.Sleep.{due}
use os_prj.System.Placed.{IsPlaced}

-- The block has had a process: its number is positive.
abbrev pub is_numbered : State → ℕ → Bool
is_numbered s a = ltb_ℤ (pos 0) (s.pcb a).pid

-- Process numbers are distinct and below the next one, and locks are owned by the processes that name
-- them.
pub record IsAccounted (s : State) : Type 0 where
  pub owned : IsOwned s
  pub unique :
      (a b : ℕ)
      → a < num_max_task
      → b < num_max_task
      → is_numbered s a ≡ true
      → (s.pcb a).pid ≡ (s.pcb b).pid
      → a ≡ b
  pub fresh : IsFresh s
  pub positive : ltb_ℤ (pos 0) s.next_pid ≡ true
  pub holders :
      (m a : ℕ) → a < num_max_task → holds m (s.pcb a).lock_owned ≡ true → is_numbered s a ≡ true

-- It depends on the numbers, the locks and what the processes name.
pub IsAccounted-cong :
    (s t : State)
    → ((a : ℕ) → (t.pcb a).pid ≡ (s.pcb a).pid)
    → ((a : ℕ) → (t.pcb a).lock_owned ≡ (s.pcb a).lock_owned)
    → ((m : ℕ) → t.mutex m ≡ s.mutex m)
    → t.next_pid ≡ s.next_pid
    → IsAccounted s
    → IsAccounted t
IsAccounted-cong s t pids owns locks next A = record {
  owned = λ m i high h.
      let here = A.owned m i high (ap (λ o. holds m o) (sym (owns i)) ∙ h) in
      (
        ap (λ (x : MutexLock). x.status) (locks m) ∙ here.0,
        ap (λ (x : MutexLock). x.owner) (locks m) ∙ here.1 ∙ sym (pids i),
      );
  unique = λ a b ha hb n same.
      A.unique a b ha hb (ap (λ p. ltb_ℤ (pos 0) p) (sym (pids a)) ∙ n)
        (sym (pids a) ∙ same ∙ pids b);
  fresh = λ a high. rw (pids a, next) (A.fresh a high);
  positive = rw next A.positive;
  holders = λ m a high h.
      ap (λ p. ltb_ℤ (pos 0) p) (pids a)
      ∙ A.holders m a high (ap (λ o. holds m o) (sym (owns a)) ∙ h);
}

-- The current process, the numbers, the locks and what the processes name are the same.
pub record Agrees (s t : State) : Type 0 where
  pub current : t.current_running ≡ s.current_running
  pub pids : (a : ℕ) → (t.pcb a).pid ≡ (s.pcb a).pid
  pub owns : (a : ℕ) → (t.pcb a).lock_owned ≡ (s.pcb a).lock_owned
  pub locks : (m : ℕ) → t.mutex m ≡ s.mutex m
  pub next : t.next_pid ≡ s.next_pid

pub Agrees-trans : {s t u : State} → Agrees s t → Agrees t u → Agrees s u
Agrees-trans A B = record {
  current = B.current ∙ A.current;
  pids = λ a. B.pids a ∙ A.pids a;
  owns = λ a. B.owns a ∙ A.owns a;
  locks = λ m. B.locks m ∙ A.locks m;
  next = B.next ∙ A.next;
}

pub Agrees-IsAccounted : {s t : State} → Agrees s t → IsAccounted s → IsAccounted t
Agrees-IsAccounted {s} {t} A = IsAccounted-cong s t A.pids A.owns A.locks A.next

-- The kernel is about to call the scheduler, or has nothing left to do: the queues are in order, each
-- process has the status of its queue, and the current process does not look ready or exited. A current
-- process that sleeps is not due.
pub record IsSettled (s : State) (L : Lists) : Type 0 where
  pub queues : Represents s.links L
  pub placed : IsPlaced s.pcb L
  pub members : (q : QueueId) (a : ℕ) → has a (L q) ≡ true → is_numbered s a ≡ true
  pub inside : s.current_running < num_max_task
  pub leaves : may_run (current s).status ≡ is_running (current s).status
  pub rested : has s.current_running (L sleep) ≡ true → due s s.current_running ≡ false
  pub caller : 0 < s.current_running → is_numbered s s.current_running ≡ true
  pub accounts : IsAccounted s

-- A process runs, or the kernel has just started.
pub record IsOrderly (s : State) (L : Lists) : Type 0 where
  pub settled : IsSettled s L
  pub runs : 0 < s.current_running → (current s).status ≡ running

-- Who runs stands in no queue.
pub IsOrderly-IsFree : (s : State) (L : Lists) → IsOrderly s L → IsFree s.current_running L
IsOrderly-IsFree s L O q = elim (Bool-cases (has s.current_running (L q))) [
  | inl here ↦
      let S = O.settled in
      ground
        (arith, S.placed q s.current_running here, O.runs, S.queues.inside q s.current_running here)
  | inr out ↦ out
]
