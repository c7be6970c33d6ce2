-- ===== src/System/Rounds.antt =====
-- Several calls of `do_scheduler` one after the other.
use os_prj.Prelude.{
  ℕ, zero, suc, ◌-◌, ◌≡◌, ◌∙◌, refl, List, [], ◌∷◌, ◌++◌, arith, length, ◌==◌, eq_of_==, Bool-cases,
  inl, inr, if◌then◌else◌,
}
use mathlib.Core.List.{append_assoc, append-nil}
use os_prj.Run.{Run, ok, ◌>>=◌}
use os_prj.Queue.{QueueId, sleep}
use os_prj.Queue.Represents.{Lists}
use os_prj.Kernel.{State, Continuation, current, set_current}
use os_prj.Sched.{do_scheduler, suspend, demoted}
use os_prj.Sched.Schedule.{goes_on, requeued, woken, awake}
use os_prj.System.Invariant.{Agrees, IsOrderly}
use os_prj.System.Moves.{same-IsOrderly}
use os_prj.System.Pick.{scheduler-picks}

-- `n` calls of the scheduler one after the other, by the processes that run.
unfoldable pub turns : ℕ → Continuation → State → Run State
turns zero k s = ok s
turns (suc n) k s = do s ← do_scheduler k s; turns n k s

-- The first ready queue only grows at its end, and nobody goes to sleep.
module _ (s : State) (L : Lists) (awake_all : L sleep ≡ []) where
  grows :
      (zs : List ℕ) × (requeued (woken s L) (awake s L) (QueueId.ready 0)
        ≡ L (QueueId.ready 0) ++ zs)
  grows =
      let me = s.current_running in
      let slot = demoted (current (woken s L)).priority - 1 in
      elim (Bool-cases (goes_on (woken s L))) [
        | inr off ↦ ([], rw (off, awake_all) refl)
        | inl on ↦ elim (Bool-cases (slot == 0)) [
          | inl first ↦
              let same : slot ≡ 0 = eq_of_== slot 0 first in
              (
                (suspend s).current_running ∷ [],
                rw (on, same, awake_all) (rw (append-nil (L (QueueId.ready 0))) refl),
              )
          | inr later ↦ ([], rw (on, later, awake_all) refl)
        ]
      ]

  none_sleeps : requeued (woken s L) (awake s L) sleep ≡ []
  none_sleeps = elim (Bool-cases (goes_on (woken s L))) [
    | inl on ↦ rw (on, awake_all) refl
    | inr off ↦ rw (off, awake_all) refl
  ]

module _ (k : Continuation) (s : State) (L : Lists) (O : IsOrderly s L)
    (awake_all : L sleep ≡ []) where
  pub do_scheduler-head :
      (x : ℕ) (xs : List ℕ)
      → L (QueueId.ready 0) ≡ x ∷ xs
      → (t : State) × (M : Lists) × (zs : List ℕ) × (do_scheduler k s ≡ ok t)
        × IsOrderly t M
        × (t.current_running ≡ x)
        × (M sleep ≡ [])
        × (M (QueueId.ready 0) ≡ xs ++ zs)
        × ((a : ℕ)
            → (t.pcb a).continuation
              ≡ (if s.current_running == a then k else (s.pcb a).continuation))
  unfolding do_scheduler
  do_scheduler-head x xs e =
      let me = s.current_running in
      let u = set_current (record (current s) { continuation = k }) s in
      let A : Agrees s u = record {
        current = refl;
        pids = λ a. ground (arith, eq_of_== me a);
        owns = λ a. ground (arith, eq_of_== me a);
        locks = λ m. refl;
        next = refl;
      } in
      let P = same-IsOrderly s u L A refl (λ a. ground (arith, eq_of_== me a)) O in
      let (zs, more) = grows u L awake_all in
      let continues : (a : ℕ)
          → (u.pcb a).continuation ≡ (if me == a then k else (s.pcb a).continuation) =
        λ a. ground arith in
      let (t, run, at, Q, same) =
        scheduler-picks u L P.settled (rw awake_all refl) 0 x (xs ++ zs) (omega arith)
          (λ j low. absurd (omega arith)) (more ∙ rw e refl) in
      (t, _, zs, run, Q, at, none_sleeps u L awake_all, refl, λ a. same a ∙ continues a)

-- With nobody asleep, the process that stands behind `xs` in the first ready queue is running
-- after one call of `do_scheduler` for each of `xs` and one more; no call fails, and the kernel
-- stays in order, as it is when a process runs.
pub turns-reach :
    (k : Continuation) (xs : List ℕ) (x : ℕ) (ys : List ℕ) (s : State) (L : Lists)
    → IsOrderly s L
    → L sleep ≡ []
    → L (QueueId.ready 0) ≡ xs ++ x ∷ ys
    → (t : State) × (M : Lists) × (turns (suc (length xs)) k s ≡ ok t)
      × (t.current_running ≡ x)
      × IsOrderly t M
unfolding turns
turns-reach k [] x ys s L O awake_all e =
    let (t, M, zs, run, P, at, _, _, _) = do_scheduler-head k s L O awake_all x ys e in
    (t, M, rw run refl, at, P)
turns-reach k (w ∷ xs) x ys s L O awake_all e =
    let (u, M, zs, run, P, at, still, rest, _) =
      do_scheduler-head k s L O awake_all w (xs ++ x ∷ ys) e in
    let (t, N, run', at', Q) =
      turns-reach k xs x (ys ++ zs) u M P still (rest ∙ append_assoc xs (x ∷ ys) zs) in
    (t, N, rw run run', at', Q)
