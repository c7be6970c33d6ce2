-- ===== src/System/Conditions.antt =====
-- `do_condition_signal` and `do_condition_broadcast` of kernel/locking/cond.c, on an orderly kernel.
use os_prj.Prelude.{ℕ, ◌≡◌, ◌∙◌, refl, sym, pos, ltb_ℤ, ◌-ℤ◌, Bool-cases, inl, inr}
use mathlib.Core.Path.{subst}
use os_prj.Run.{ok-inj, returned, ok, ◌>>=◌}
use os_prj.Queue.{QueueId, put, of_condition}
use os_prj.Queue.Represents.{Lists}
use os_prj.Queue.Push.{pushed}
use os_prj.Kernel.{State, set_num_waiting}
use os_prj.Sched.{do_unblock_one}
use os_prj.Sched.Unblock.{drained}
use os_prj.Locking.Condition.{do_condition_signal, do_condition_broadcast}
use os_prj.System.Counted.{IsCounted, InOrder, Same-IsCounted}
use os_prj.System.Tally.{tallied-served, tallied-drained}
use os_prj.System.Invariant.{IsOrderly, IsOrderly-IsFree}
use os_prj.System.Calls.{do_unblock_all-IsSettled, do_unblock_one-IsSettled}
use os_prj.System.Objects.{aside-IsOrderly}

module _ (k : ℕ) (s t : State) (L : Lists) (O : IsOrderly s L) (N : IsCounted s L) where
  pub do_condition_signal-InOrder : do_condition_signal k s ≡ ok t → InOrder t
  unfolding do_condition_signal
  do_condition_signal-InOrder run = elim (Bool-cases (ltb_ℤ (pos 0) (s.num_waiting k))) [
    | inl some_wait ↦
        let rest = λ (v : State). ok (set_num_waiting k (v.num_waiting k -ℤ pos 1) v) in
        let same : do_condition_signal k s ≡ (do_unblock_one (of_condition k) s >>= rest) =
          rw some_wait refl in
        let (u, woken, run') =
          returned (do_unblock_one (of_condition k) s) rest t (sym same ∙ run) in
        let (x, xs, e, A, S', status, objects) =
          do_unblock_one-IsSettled s L O.settled (of_condition k) refl refl
            (IsOrderly-IsFree s L O (of_condition k)) u woken in
        let v = set_num_waiting k (u.num_waiting k -ℤ pos 1) u in
        let L' = pushed (QueueId.ready 0) x (put L (of_condition k) xs) in
        let O' : IsOrderly u L' = record {
          settled = S';
          runs = λ low. status ∙ O.runs (rw (A.current) at low);
        } in
        (
          L',
          subst (λ w. IsOrderly w L') (ok-inj run')
              (aside-IsOrderly u v L' refl refl refl refl refl O'),
          subst (λ w. IsCounted w L') (ok-inj run')
              (Same-IsCounted (set_num_waiting k (s.num_waiting k -ℤ pos 1) s) v L'
                (objects.0, rw (objects.1) refl, objects.2, objects.3)
                (tallied-served s L N k x xs e)),
        )
    | inr none_waits ↦
        let same : do_condition_signal k s ≡ ok s = rw none_waits refl in
        (
          L,
          subst (λ w. IsOrderly w L) (ok-inj (sym same ∙ run)) O,
          subst (λ w. IsCounted w L) (ok-inj (sym same ∙ run)) N,
        )
  ]

  pub do_condition_broadcast-InOrder : do_condition_broadcast k s ≡ ok t → InOrder t
  unfolding do_condition_broadcast
  do_condition_broadcast-InOrder run = elim (Bool-cases (ltb_ℤ (pos 0) (s.num_waiting k))) [
    | inl some_wait ↦
        let (u, e, A, S', status, _, objects) =
          do_unblock_all-IsSettled s L O.settled (of_condition k) refl refl
            (IsOrderly-IsFree s L O (of_condition k)) in
        let v = set_num_waiting k (pos 0) u in
        let same : do_condition_broadcast k s ≡ ok v = rw (some_wait, e) refl in
        let M = drained (of_condition k) L in
        let O' : IsOrderly u M = record {
          settled = S';
          runs = λ low. status ∙ O.runs (rw (A.current) at low);
        } in
        (
          M,
          subst (λ w. IsOrderly w M) (ok-inj (sym same ∙ run))
              (aside-IsOrderly u v M refl refl refl refl refl O'),
          subst (λ w. IsCounted w M) (ok-inj (sym same ∙ run))
              (Same-IsCounted (set_num_waiting k (pos 0) s) v M
                (objects.0, rw (objects.1) refl, objects.2, objects.3) (tallied-drained s L N k)),
        )
    | inr none_waits ↦
        let same : do_condition_broadcast k s ≡ ok s = rw none_waits refl in
        (
          L,
          subst (λ w. IsOrderly w L) (ok-inj (sym same ∙ run)) O,
          subst (λ w. IsCounted w L) (ok-inj (sym same ∙ run)) N,
        )
  ]
