-- ===== src/System/Tally.antt =====
-- What the operations of kernel/locking/ do to one object, counted.
use os_prj.Prelude.{
  ℕ, ◌≡◌, ◌∙◌, ap, true, false, List, [], ◌∷◌, arith, has-append, length, length-append, ℤ, pos,
  negsuc, neg_part, ltb_ℤ, leb_ℤ, ◌+ℤ◌, ◌-ℤ◌, ◌==ℤ◌, ◌==◌, eq_of_==, incr_below, incr_pos, decr_pos,
  decr_below, decr_above,
}
use os_prj.Queue.{QueueId, of_mutex, of_semaphore, of_barrier, of_condition, put}
use os_prj.Queue.Represents.{Lists}
use os_prj.Queue.Push.{pushed}
use os_prj.Kernel.{State, MutexLock, locked, set_semaphore, set_barrier, set_num_waiting}
use os_prj.Sched.Unblock.{drained}
use os_prj.System.Counted.{Counts, IsCounted}

incr_idle :
    (v : ℤ) → leb_ℤ (v +ℤ pos 1) (pos 0) ≡ false → (neg_part v ≡ 0) × (neg_part (v +ℤ pos 1) ≡ 0)
unfolding ◌+ℤ◌
incr_idle (pos a) h = ground arith
incr_idle (negsuc a) h = ground arith

past : (a b : ℤ) → ltb_ℤ (a +ℤ pos 1) b ≡ false → ((a +ℤ pos 1) ==ℤ b) ≡ false → ltb_ℤ a b ≡ false
unfolding ◌+ℤ◌
past a b full other = ground arith

module _ (s : State) (L : Lists) (N : IsCounted s L) (k : ℕ) where
  pub raised-idle :
      leb_ℤ (s.semaphore k +ℤ pos 1) (pos 0) ≡ false
      → IsCounted (set_semaphore k (s.semaphore k +ℤ pos 1) s) L
  raised-idle none_waits = record {
    semaphores =
        λ j. ground (arith, N.semaphores j, incr_idle (s.semaphore k) none_waits, eq_of_== k j);
    conditions = N.conditions;
    barriers = N.barriers;
    locks = N.locks;
  }

  pub raised-served :
      (x : ℕ) (xs : List ℕ)
      → L (of_semaphore k) ≡ x ∷ xs
      → IsCounted
          (set_semaphore k (s.semaphore k +ℤ pos 1) s)
          (pushed (QueueId.ready 0) x (put L (of_semaphore k) xs))
  raised-served x xs e = record {
    semaphores = λ j. ground (
      arith,
      N.semaphores j,
      incr_below (s.semaphore k) (length xs) (N.semaphores k ∙ ap length e),
      eq_of_== k j,
    );
    conditions = N.conditions;
    barriers = N.barriers;
    locks = N.locks;
  }

  pub lowered-idle :
      ltb_ℤ (s.semaphore k -ℤ pos 1) (pos 0) ≡ false
      → IsCounted (set_semaphore k (s.semaphore k -ℤ pos 1) s) L
  lowered-idle goes_on = record {
    semaphores =
        λ j. ground (arith, N.semaphores j, decr_above (s.semaphore k) goes_on, eq_of_== k j);
    conditions = N.conditions;
    barriers = N.barriers;
    locks = N.locks;
  }

  pub lowered-pushed :
      (i : ℕ)
      → ltb_ℤ (s.semaphore k -ℤ pos 1) (pos 0) ≡ true
      → IsCounted (set_semaphore k (s.semaphore k -ℤ pos 1) s) (pushed (of_semaphore k) i L)
  lowered-pushed i waits = record {
    semaphores = λ j. ground (
      arith,
      N.semaphores j,
      decr_below (s.semaphore k) waits,
      length-append (L (of_semaphore k)) (i ∷ []),
      eq_of_== k j,
    );
    conditions = N.conditions;
    barriers = N.barriers;
    locks = N.locks;
  }

  pub tallied-pushed :
      (i : ℕ)
      → IsCounted (set_num_waiting k (s.num_waiting k +ℤ pos 1) s) (pushed (of_condition k) i L)
  tallied-pushed i = record {
    semaphores = N.semaphores;
    conditions = λ j. ground (
      arith,
      N.conditions j,
      incr_pos (length (L (of_condition k))),
      length-append (L (of_condition k)) (i ∷ []),
      eq_of_== k j,
    );
    barriers = N.barriers;
    locks = N.locks;
  }

  pub tallied-served :
      (x : ℕ) (xs : List ℕ)
      → L (of_condition k) ≡ x ∷ xs
      → IsCounted
          (set_num_waiting k (s.num_waiting k -ℤ pos 1) s)
          (pushed (QueueId.ready 0) x (put L (of_condition k) xs))
  tallied-served x xs e = record {
    semaphores = N.semaphores;
    conditions = λ j. ground (
      arith,
      N.conditions j,
      decr_pos (length xs),
      N.conditions k ∙ ap (λ ys. pos (length ys)) e,
      eq_of_== k j,
    );
    barriers = N.barriers;
    locks = N.locks;
  }

  pub tallied-drained : IsCounted (set_num_waiting k (pos 0) s) (drained (of_condition k) L)
  tallied-drained = record {
    semaphores = N.semaphores;
    conditions = λ j. ground (arith, N.conditions j, eq_of_== k j);
    barriers = N.barriers;
    locks = N.locks;
  }

  pub arrived-pushed :
      (i : ℕ)
      → ltb_ℤ ((s.barrier k).num_now +ℤ pos 1) (s.barrier k).num_expected ≡ true
      → IsCounted
          (set_barrier k (record (s.barrier k) { num_now = (s.barrier k).num_now +ℤ pos 1 }) s)
          (pushed (of_barrier k) i L)
  arrived-pushed i waits = record {
    semaphores = N.semaphores;
    conditions = N.conditions;
    barriers = λ j. ground (
      arith,
      N.barriers j,
      waits,
      incr_pos (length (L (of_barrier k))),
      length-append (L (of_barrier k)) (i ∷ []),
      eq_of_== k j,
    );
    locks = N.locks;
  }

  pub arrived-drained :
      IsCounted
        (set_barrier k (record (s.barrier k) { num_now = pos 0 }) s)
        (drained (of_barrier k) L)
  arrived-drained = record {
    semaphores = N.semaphores;
    conditions = N.conditions;
    barriers = λ j. ground (arith, N.barriers j, eq_of_== k j);
    locks = N.locks;
  }

  -- The barrier expects nobody.
  pub arrived-wrong :
      ltb_ℤ ((s.barrier k).num_now +ℤ pos 1) (s.barrier k).num_expected ≡ false
      → (((s.barrier k).num_now +ℤ pos 1) ==ℤ (s.barrier k).num_expected) ≡ false
      → IsCounted
          (set_barrier k (record (s.barrier k) { num_now = (s.barrier k).num_now +ℤ pos 1 }) s)
          L
  arrived-wrong full other = record {
    semaphores = N.semaphores;
    conditions = N.conditions;
    barriers = λ j. ground (
      arith,
      N.barriers j,
      past (s.barrier k).num_now (s.barrier k).num_expected full other,
      eq_of_== k j,
    );
    locks = N.locks;
  }

  pub locked-pushed : (i : ℕ) → (s.mutex k).status ≡ locked → IsCounted s (pushed (of_mutex k) i L)
  locked-pushed i taken = record {
    semaphores = N.semaphores;
    conditions = N.conditions;
    barriers = N.barriers;
    locks = λ m a h.
        ground (arith, N.locks m a, taken, has-append a (L (of_mutex k)) (i ∷ []), h, eq_of_== k m);
  }

  -- A lock of which nobody waits any more, and one that is taken.
  pub released-drained :
      (mutex : ℕ → MutexLock)
      → ((m : ℕ) → (k == m) ≡ false → (mutex m).status ≡ (s.mutex m).status)
      → Counts s.semaphore s.num_waiting s.barrier mutex (drained (of_mutex k) L)
  released-drained mutex others = record {
    semaphores = N.semaphores;
    conditions = N.conditions;
    barriers = N.barriers;
    locks = λ m a h. ground (arith, N.locks m a, others m, h, eq_of_== k m);
  }

  pub taken-IsCounted :
      (mutex : ℕ → MutexLock)
      → (mutex k).status ≡ locked
      → ((m : ℕ) → (k == m) ≡ false → (mutex m).status ≡ (s.mutex m).status)
      → Counts s.semaphore s.num_waiting s.barrier mutex L
  taken-IsCounted mutex taken others = record {
    semaphores = N.semaphores;
    conditions = N.conditions;
    barriers = N.barriers;
    locks = λ m a h. ground (arith, N.locks m a h, others m, taken, eq_of_== k m);
  }
