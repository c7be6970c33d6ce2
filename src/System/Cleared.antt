-- ===== src/System/Cleared.antt =====
-- What it does to the counts that somebody leaves a queue, or that an object is set up anew.
use os_prj.Prelude.{
  ℕ, ◌≡◌, Bool, true, false, List, [], arith, has, ℤ, pos, negsuc, leb_ℤ, ◌==◌, eq_of_==,
}
use os_prj.Queue.{eq_of_queue_eq, QueueId, of_mutex, of_semaphore, of_barrier, of_condition, put}
use os_prj.Queue.Represents.{Lists}
use os_prj.Kernel.{State, MutexLock, set_semaphore, set_barrier, set_num_waiting}
use os_prj.System.Counted.{Counts, IsCounted}

-- The queues whose members are counted.
abbrev pub of_counter : QueueId → Bool
of_counter (of_semaphore k) = true
of_counter (of_barrier k) = true
of_counter (of_condition k) = true
of_counter q = false

-- Some members left another queue.
pub left-IsCounted :
    (s : State) (L : Lists) (q : QueueId) (xs : List ℕ)
    → of_counter q ≡ false
    → ((a : ℕ) → has a xs ≡ true → has a (L q) ≡ true)
    → IsCounted s L
    → IsCounted s (put L q xs)
left-IsCounted s L q xs other fewer N = record {
  semaphores = λ k. ground (arith, N.semaphores k, eq_of_queue_eq q (of_semaphore k));
  conditions = λ k. ground (arith, N.conditions k, eq_of_queue_eq q (of_condition k));
  barriers = λ k. ground (arith, N.barriers k, eq_of_queue_eq q (of_barrier k));
  locks = λ m a h. ground (arith, N.locks m a, fewer a, eq_of_queue_eq q (of_mutex m), h);
}

-- An object is set up anew: its queue is empty then.
module _ (k : ℕ) (s : State) (L : Lists) where
  pub set_up-IsCounted :
      (v : ℤ)
      → leb_ℤ (pos 0) v ≡ true
      → IsCounted s L
      → IsCounted (set_semaphore k v s) (put L (of_semaphore k) [])
  set_up-IsCounted (pos v) good N = record {
    semaphores = λ j. ground (arith, N.semaphores j, eq_of_== k j);
    conditions = N.conditions;
    barriers = N.barriers;
    locks = N.locks;
  }
  set_up-IsCounted (negsuc v) good N = absurd (let wrong = good in ground arith)

  pub fenced-IsCounted :
      (v : ℤ)
      → IsCounted s L
      → IsCounted
          (set_barrier k (record { num_expected = v; num_now = pos 0 }) s)
          (put L (of_barrier k) [])
  fenced-IsCounted v N = record {
    semaphores = N.semaphores;
    conditions = N.conditions;
    barriers = λ j. ground (arith, N.barriers j, eq_of_== k j);
    locks = N.locks;
  }

  pub cleared-IsCounted :
      IsCounted s L → IsCounted (set_num_waiting k (pos 0) s) (put L (of_condition k) [])
  cleared-IsCounted N = record {
    semaphores = N.semaphores;
    conditions = λ j. ground (arith, N.conditions j, eq_of_== k j);
    barriers = N.barriers;
    locks = N.locks;
  }

  pub opened-IsCounted :
      (mutex : ℕ → MutexLock)
      → ((m : ℕ) → (k == m) ≡ false → (mutex m).status ≡ (s.mutex m).status)
      → IsCounted s L
      → Counts s.semaphore s.num_waiting s.barrier mutex (put L (of_mutex k) [])
  opened-IsCounted mutex others N = record {
    semaphores = N.semaphores;
    conditions = N.conditions;
    barriers = N.barriers;
    locks = λ m a h. ground (arith, N.locks m a, others m, h, eq_of_== k m);
  }
