-- ===== src/System/Processes.antt =====
-- `do_sleep` of kernel/sched/sched.c and `do_wait` of init/main.c, on an orderly kernel.
use os_prj.Prelude.{ℕ, ◌+◌, ◌%◌, ◌^◌, ◌<◌, ◌≡◌, ◌∙◌, refl, sym, false, arith, ==_self, eq_of_==, ℤ}
use os_prj.Run.{returned, ok, ◌>>=◌}
use os_prj.Queue.{sleep, waiting, queue_push}
use os_prj.Queue.Represents.{Lists}
use os_prj.Queue.Push.{pushed, queue_push-snoc}
use os_prj.Kernel.{State, leave, blocked, sleeping, current, set_current, lookup_pid}
use os_prj.Sched.{get_timer, do_scheduler, do_sleep}
use os_prj.Sched.Sleep.{due}
use os_prj.Process.{do_wait}
use os_prj.System.Invariant.{IsAccounted-cong, IsOrderly, IsOrderly-IsFree}
use os_prj.System.Moves.{pushed-IsSettled}
use os_prj.System.Calls.{do_scheduler-InOrder}
use os_prj.System.Counted.{IsCounted, InOrder, apart-IsCounted, pushed-object}

module _ (s t : State) (L : Lists) (O : IsOrderly s L) (N : IsCounted s L)
    (low : 0 < s.current_running) where
  pub do_sleep-InOrder :
      (sleep_time : ℕ)
      → sleep_time + get_timer s < 2 ^ 32
      → do_sleep sleep_time s ≡ ok t
      → InOrder t
  unfolding do_sleep get_timer
  do_sleep-InOrder sleep_time in_time run =
      let me = s.current_running in
      let alarm = (sleep_time + get_timer s) % 2 ^ 32 in
      let (l, e, R) =
        queue_push-snoc O.settled.queues sleep me (IsOrderly-IsFree s L O) low O.settled.inside in
      let u =
        record (set_current (record (current s) { status = sleeping; alarm_time = alarm }) s) {
          links = l;
        } in
      let same : do_sleep sleep_time s ≡ do_scheduler leave u = rw e refl in
      let pids : (a : ℕ) → (u.pcb a).pid ≡ (s.pcb a).pid = λ a. ground (arith, eq_of_== me a) in
      let A =
        IsAccounted-cong s u pids (λ a. ground (arith, eq_of_== me a)) (λ m. refl) refl
          O.settled.accounts in
      let later : due u u.current_running ≡ false = rw (==_self me) (ground arith) in
      do_scheduler-InOrder leave u t (pushed sleep me L)
        (pushed-IsSettled s u L O refl pids A sleep low (rw (==_self me) refl) refl
          (λ a o. ground (arith, eq_of_== me a, ==_self a)) (λ h. later) R)
        (apart-IsCounted s L (pushed sleep me L) (λ r. pushed-object sleep r me L refl) N)
        (sym same ∙ run)

  pub do_wait-InOrder : (pid : ℤ) → do_wait pid s ≡ ok t → InOrder t
  unfolding do_wait
  do_wait-InOrder pid run =
      let me = s.current_running in
      let s₁ = set_current (record (current s) { status = blocked }) s in
      let rest = λ (i : ℕ). (do
        l ← queue_push (waiting i) s₁.current_running s₁.links
        let s = record s₁ { links = l }
        do_scheduler leave (set_current (record (current s) { waiting_pcb = pid }) s)) in
      let (i, _, run') = returned (lookup_pid pid s₁) rest t run in
      let (l, e, R) =
        queue_push-snoc O.settled.queues (waiting i) me (IsOrderly-IsFree s L O) low
          O.settled.inside in
      let b = record s₁ { links = l } in
      let u = set_current (record (current b) { waiting_pcb = pid }) b in
      let same : rest i ≡ do_scheduler leave u = rw e refl in
      let pids : (a : ℕ) → (u.pcb a).pid ≡ (s.pcb a).pid = λ a. ground (arith, eq_of_== me a) in
      let A =
        IsAccounted-cong s u pids (λ a. ground (arith, eq_of_== me a)) (λ m. refl) refl
          O.settled.accounts in
      do_scheduler-InOrder leave u t (pushed (waiting i) me L)
        (pushed-IsSettled s u L O refl pids A (waiting i) low (rw (==_self me) refl) refl
          (λ a o. ground (arith, eq_of_== me a, ==_self a)) (λ h. cc) R)
        (apart-IsCounted s L (pushed (waiting i) me L) (λ r. pushed-object (waiting i) r me L refl)
          N)
        (sym same ∙ run')
