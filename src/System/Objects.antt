-- ===== src/System/Objects.antt =====
-- kernel/locking/sem.c and barrier.c, on an orderly kernel.
use os_prj.Prelude.{
  arith, eq_of_==, ℕ, ◌<◌, ◌≡◌, ◌∙◌, refl, sym, false, true, ==_self, pos, ltb_ℤ, leb_ℤ, ◌+ℤ◌, ◌-ℤ◌,
  ◌==ℤ◌, Bool-cases, inl, inr,
}
use mathlib.Core.Path.{subst}
use os_prj.Run.{ok-inj, returned, ok}
use os_prj.Queue.{QueueId, put, of_semaphore, of_barrier}
use os_prj.Queue.Represents.{Lists}
use os_prj.Queue.Push.{pushed}
use os_prj.Kernel.{State, leave, set_semaphore, set_barrier, printk, barrier_wrong}
use os_prj.Sched.{get_timer, do_scheduler, do_unblock_one}
use os_prj.Sched.Unblock.{drained}
use os_prj.Locking.Semaphore.{raise, lower, do_semaphore_up, do_semaphore_down}
use os_prj.Locking.Barrier.{arrive, do_barrier_wait}
use os_prj.System.Counted.{IsCounted, InOrder, Stays, Stays-IsCounted, Same-IsCounted}
use os_prj.System.Tally.{
  arrived-pushed, arrived-drained, arrived-wrong, raised-served, raised-idle, lowered-pushed,
  lowered-idle,
}
use os_prj.System.Invariant.{Agrees, IsSettled, IsOrderly, IsOrderly-IsFree}
use os_prj.System.Moves.{same-IsSettled, same-IsOrderly}
use os_prj.System.Calls.{
  do_scheduler-InOrder, do_block-IsSettled, do_unblock_all-IsSettled, do_unblock_one-IsSettled,
}

Agrees-refl :
    (s t : State)
    → t.current_running ≡ s.current_running
    → t.pcb ≡ s.pcb
    → t.mutex ≡ s.mutex
    → t.next_pid ≡ s.next_pid
    → Agrees s t
Agrees-refl s t runs table locks next = record {
  current = runs;
  pids = λ a. rw table refl;
  owns = λ a. rw table refl;
  locks = λ m. rw locks refl;
  next = next;
}

-- A change of another object than the queues, the table and the locks.
pub aside-IsOrderly :
    (s t : State) (L : Lists)
    → t.current_running ≡ s.current_running
    → t.pcb ≡ s.pcb
    → t.mutex ≡ s.mutex
    → t.next_pid ≡ s.next_pid
    → t.links ≡ s.links
    → IsOrderly s L
    → IsOrderly t L
aside-IsOrderly s t L runs table locks next links =
    same-IsOrderly s t L (Agrees-refl s t runs table locks next) links (λ a. rw table refl)

pub aside-IsSettled :
    (s t : State) (L : Lists)
    → t.current_running ≡ s.current_running
    → t.pcb ≡ s.pcb
    → t.mutex ≡ s.mutex
    → t.next_pid ≡ s.next_pid
    → t.links ≡ s.links
    → t.time_elapsed ≡ s.time_elapsed
    → IsSettled s L
    → IsSettled t L
unfolding get_timer
aside-IsSettled s t L runs table locks next links time =
    same-IsSettled s t L (Agrees-refl s t runs table locks next) links (λ a. rw table refl)
      (rw (runs, table, time) refl)

module _ (k : ℕ) (s t : State) (L : Lists) (O : IsOrderly s L) (N : IsCounted s L) where
  pub do_semaphore_up-InOrder : do_semaphore_up k s ≡ ok t → InOrder t
  unfolding do_semaphore_up raise
  do_semaphore_up-InOrder run =
      let s' = set_semaphore k (s.semaphore k +ℤ pos 1) s in
      let O' = aside-IsOrderly s s' L refl refl refl refl refl O in
      let (u, raised, run') = returned (raise k s) (λ v. do_scheduler leave v) t run in
      elim (Bool-cases (leb_ℤ (s'.semaphore k) (pos 0))) [
        | inl waits ↦
            let woken : do_unblock_one (of_semaphore k) s' ≡ ok u = rw waits at raised in
            let (x, xs, e, _, S', _, same) =
              do_unblock_one-IsSettled s' L O'.settled (of_semaphore k) refl refl
                (IsOrderly-IsFree s' L O' (of_semaphore k)) u woken in
            let L' = pushed (QueueId.ready 0) x (put L (of_semaphore k) xs) in
            do_scheduler-InOrder leave u t L' S'
              (Same-IsCounted s' u L' same (raised-served s L N k x xs e)) run'
        | inr none_waits ↦
            let stays : ok s' ≡ ok u = rw none_waits at raised in
            let idle : leb_ℤ (s.semaphore k +ℤ pos 1) (pos 0) ≡ false =
              rw (==_self k) at none_waits in
            do_scheduler-InOrder leave u t L (subst (λ v. IsSettled v L) (ok-inj stays) O'.settled)
              (subst (λ v. IsCounted v L) (ok-inj stays) (raised-idle s L N k idle)) run'
      ]

  pub do_semaphore_down-InOrder : 0 < s.current_running → do_semaphore_down k s ≡ ok t → InOrder t
  unfolding do_semaphore_down lower
  do_semaphore_down-InOrder low run =
      let s' = set_semaphore k (s.semaphore k -ℤ pos 1) s in
      let O' = aside-IsOrderly s s' L refl refl refl refl refl O in
      elim (Bool-cases (ltb_ℤ (s'.semaphore k) (pos 0))) [
        | inl waits ↦
            let (u, e, _, S', _, objects) =
              do_block-IsSettled s' L O' low (of_semaphore k) refl refl in
            let same : do_semaphore_down k s ≡ do_scheduler leave u = rw (waits, e) refl in
            let below : ltb_ℤ (s.semaphore k -ℤ pos 1) (pos 0) ≡ true = rw (==_self k) at waits in
            let L' = pushed (of_semaphore k) s.current_running L in
            do_scheduler-InOrder leave u t L' S'
              (Same-IsCounted s' u L' objects (lowered-pushed s L N k s.current_running below))
              (sym same ∙ run)
        | inr goes_on ↦
            let same : do_semaphore_down k s ≡ do_scheduler leave s' = rw goes_on refl in
            let above : ltb_ℤ (s.semaphore k -ℤ pos 1) (pos 0) ≡ false =
              rw (==_self k) at goes_on in
            do_scheduler-InOrder leave s' t L O'.settled (lowered-idle s L N k above)
              (sym same ∙ run)
      ]

  pub do_barrier_wait-InOrder : 0 < s.current_running → do_barrier_wait k s ≡ ok t → InOrder t
  unfolding do_barrier_wait
  do_barrier_wait-InOrder low run =
      let s' = arrive k s in
      let b = s'.barrier k in
      let O' = aside-IsOrderly s s' L refl refl refl refl refl O in
      elim (Bool-cases (ltb_ℤ b.num_now b.num_expected)) [
        | inl waits ↦
            let (u, e, _, S', _, objects) =
              do_block-IsSettled s' L O' low (of_barrier k) refl refl in
            let same : do_barrier_wait k s ≡ do_scheduler leave u = rw (waits, e) refl in
            let L' = pushed (of_barrier k) s.current_running L in
            let fewer : ltb_ℤ ((s.barrier k).num_now +ℤ pos 1) (s.barrier k).num_expected ≡ true =
              rw (==_self k) at waits in
            do_scheduler-InOrder leave u t L' S'
              (Same-IsCounted s' u L' objects (arrived-pushed s L N k s.current_running fewer))
              (sym same ∙ run)
        | inr full ↦ elim (Bool-cases (b.num_now ==ℤ b.num_expected)) [
          | inl last ↦
              let (u, e, _, S', _, _, objects) =
                do_unblock_all-IsSettled s' L O'.settled (of_barrier k) refl refl
                  (IsOrderly-IsFree s' L O' (of_barrier k)) in
              let v = set_barrier k (record (u.barrier k) { num_now = pos 0 }) u in
              let same : do_barrier_wait k s ≡ do_scheduler leave v = rw (full, last, e) refl in
              let L' = drained (of_barrier k) L in
              let zero_now = set_barrier k (record (s.barrier k) { num_now = pos 0 }) s in
              let reset : Stays zero_now v L' L' = record {
                semaphore = λ j. rw (objects.0) refl;
                num_waiting = λ j. rw (objects.1) refl;
                barrier = λ j. rw (objects.2, ==_self k) (ground (arith, eq_of_== k j));
                mutex = λ j. rw (objects.3) refl;
                queues = λ q h. refl;
              } in
              do_scheduler-InOrder leave v t L'
                (aside-IsSettled u v L' refl refl refl refl refl refl S')
                (Stays-IsCounted reset (arrived-drained s L N k)) (sym same ∙ run)
          | inr wrong ↦
              let v = printk (barrier_wrong b.num_expected b.num_now) s' in
              let same : do_barrier_wait k s ≡ ok v = rw (full, wrong) refl in
              let none_fewer : ltb_ℤ ((s.barrier k).num_now +ℤ pos 1) (s.barrier k).num_expected
                  ≡ false =
                rw (==_self k) at full in
              let other : ((s.barrier k).num_now +ℤ pos 1 ==ℤ (s.barrier k).num_expected) ≡ false =
                rw (==_self k) at wrong in
              (
                L,
                subst (λ w. IsOrderly w L) (ok-inj (sym same ∙ run))
                    (aside-IsOrderly s' v L refl refl refl refl refl O'),
                subst (λ w. IsCounted w L) (ok-inj (sym same ∙ run))
                    (arrived-wrong s L N k none_fewer other),
              )
        ]
      ]
