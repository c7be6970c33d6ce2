-- ===== src/System/Events.antt =====
-- `_start` of init/main.c, `system_call_helper` of kernel/syscall/syscall.c, `interrupt_helper` of
-- kernel/irq/irq.c, and what a process does when its turn comes again, on an orderly kernel.
use os_prj.Prelude.{
  ℕ, ◌+◌, ◌%◌, ◌^◌, ◌<◌, ◌≡◌, ◌⊎◌, ◌∙◌, refl, sym, ◌&&◌, some, ◌==◌, ℤ, pos, pos_part, ltb_ℤ, leb_ℤ,
  if◌then◌else◌, inl, inr, Bool-cases, Option-cases,
}
use mathlib.Core.Path.{subst}
use os_prj.Run.{ok-inj, returned, Run, ok, fault, hang, ◌>>=◌}
use os_prj.Kernel.{
  State, LockStatus, locked, unlocked, Continuation, current, printk, unknown_interrupt,
}
use os_prj.Boot.{fill_screens, init_exception, start_kernel}
use os_prj.Screen.{init_screen, screen_reflush}
use os_prj.Sched.{do_scheduler}
use os_prj.Locking.Mutex.{do_mutex_lock_acquire}
use os_prj.Process.{init_pcb}
use os_prj.Syscall.{
  Handler, Image, Machine, with_screen, with_kernel, set_v0, call, hands_over, result, init_syscall,
  num_syscalls, system_call_helper,
}
use os_prj.Interrupt.{irq_timer, irq_timer_rest, event_of, interrupt_helper, acquire_again, resume}
use os_prj.System.Calls.{do_scheduler-InOrder}
use os_prj.System.Counted.{InOrder}
use os_prj.System.Objects.{aside-IsOrderly}
use os_prj.System.Acquire.{do_mutex_lock_acquire-InOrder}
use os_prj.System.Zeroed.{IsZeroed, init_pcb-InOrder}
use os_prj.System.Handlers.{
  with_kernel-InOrder, with_screen-InOrder, set_v0-InOrder, answered-InOrder, IsSafe, call-InOrder,
}

module _ (image : Image) where
  acquire_again-InOrder :
      (a : ℕ) (m t : Machine)
      → InOrder m.kernel
      → 0 < m.kernel.current_running
      → acquire_again image a m ≡ ok t
      → InOrder t.kernel
  unfolding acquire_again
  acquire_again-InOrder a m t (L, O, N) low run =
      let acquired = do_mutex_lock_acquire a m.kernel in
      let good = λ (s : State). do_mutex_lock_acquire-InOrder a m.kernel s L O N low in
      elim (lock_cases (m.kernel.mutex a).status) [
        | inl taken ↦
            let same : acquire_again image a m ≡ with_kernel acquired m =
              rw (taken, acquire_again) refl in
            with_kernel-InOrder acquired m t good (sym same ∙ run)
        | inr free ↦
            let rest = λ (x : Machine). ok (set_v0 image.leftover x) in
            let same : acquire_again image a m ≡ (with_kernel acquired m >>= rest) =
              rw (free, acquire_again) refl in
            let (u, e, e') = returned (with_kernel acquired m) rest t (sym same ∙ run) in
            subst (λ (x : Machine). InOrder x.kernel) (ok-inj e')
              (set_v0-InOrder image.leftover u (with_kernel-InOrder acquired m u good e))
      ]
    where
      lock_cases : (l : LockStatus) → (l ≡ locked) ⊎ (l ≡ unlocked)
      lock_cases locked = inl refl
      lock_cases unlocked = inr refl

  irq_timer_rest-InOrder :
      (m t : Machine) → InOrder m.kernel → irq_timer_rest m ≡ ok t → InOrder t.kernel
  unfolding irq_timer_rest
  irq_timer_rest-InOrder m t (L, O, N) run =
      let k = m.kernel in
      let later = record k { time_elapsed = (k.time_elapsed + 100000) % 2 ^ 32 } in
      with_screen-InOrder (λ s. ok (screen_reflush s)) (record m { kernel = later }) t
        (L, aside-IsOrderly k later L refl refl refl refl refl O, N) run

  -- `resume` by the place where the process goes on.
  abbrev pub behind : Machine → Continuation → Run Machine
  behind m Continuation.enter = ok m
  behind m Continuation.leave = ok (set_v0 image.leftover m)
  behind m (Continuation.acquire a) = acquire_again image a m
  behind m Continuation.timer = irq_timer_rest m

  behind-InOrder :
      (k : Continuation) (m t : Machine)
      → InOrder m.kernel
      → 0 < m.kernel.current_running
      → behind m k ≡ ok t
      → InOrder t.kernel
  behind-InOrder Continuation.enter m t O low run =
      subst (λ (x : Machine). InOrder x.kernel) (ok-inj run) O
  behind-InOrder Continuation.leave m t O low run =
      subst (λ (x : Machine). InOrder x.kernel) (ok-inj run) (set_v0-InOrder image.leftover m O)
  behind-InOrder (Continuation.acquire a) m t O low run = acquire_again-InOrder a m t O low run
  behind-InOrder Continuation.timer m t O low run = irq_timer_rest-InOrder m t O run

  pub resume-behind : (m : Machine) → resume image m ≡ behind m (current m.kernel).continuation
  unfolding resume
  resume-behind m = refl

  pub resume-InOrder :
      (m t : Machine)
      → InOrder m.kernel
      → 0 < m.kernel.current_running
      → resume image m ≡ ok t
      → InOrder t.kernel
  resume-InOrder m t O low run =
      behind-InOrder (current m.kernel).continuation m t O low (sym (resume-behind m) ∙ run)

  pub interrupt_helper-InOrder :
      (cause : ℕ) (m t : Machine)
      → InOrder m.kernel
      → interrupt_helper cause m ≡ ok t
      → InOrder t.kernel
  unfolding interrupt_helper irq_timer
  interrupt_helper-InOrder cause m t (L, O, N) run = elim (Bool-cases (event_of cause == 0x8000)) [
    | inl clock ↦
        let same : interrupt_helper cause m ≡ irq_timer m = rw clock refl in
        with_kernel-InOrder (do_scheduler Continuation.timer m.kernel) m t
          (λ s. do_scheduler-InOrder Continuation.timer m.kernel s L O.settled N) (sym same ∙ run)
    | inr other ↦
        let k = printk (unknown_interrupt (event_of cause) cause) m.kernel in
        let same : interrupt_helper cause m ≡ ok (record m { kernel = k }) = rw other refl in
        subst (λ (x : Machine). InOrder x.kernel) (ok-inj (sym same ∙ run))
          (L, aside-IsOrderly m.kernel k L refl refl refl refl refl O, N)
  ]

  -- The number names a handler, and the call is safe.
  abbrev pub IsSafeCall : ℤ → ℕ → State → Type 0
  IsSafeCall fn a s = (h : Handler) → init_syscall (pos_part fn) ≡ some h → IsSafe image h a s

  pub system_call_helper-InOrder :
      (fn : ℤ) (a b c : ℕ) (m t : Machine)
      → InOrder m.kernel
      → 0 < m.kernel.current_running
      → IsSafeCall fn a m.kernel
      → system_call_helper image fn a b c m ≡ ok t
      → InOrder t.kernel
  unfolding system_call_helper
  system_call_helper-InOrder fn a b c m t O low safe run =
      elim (Bool-cases (leb_ℤ (pos 0) fn && ltb_ℤ fn (pos num_syscalls))) [
        | inr outside ↦
            let stops : system_call_helper image fn a b c m ≡ hang = rw outside refl in
            absurd (let wrong = sym stops ∙ run in cc)
        | inl inside ↦ elim (Option-cases (init_syscall (pos_part fn))) [
          | inl e ↦
              let stops : system_call_helper image fn a b c m ≡ fault =
                rw (inside, e, system_call_helper) refl in
              absurd (let wrong = sym stops ∙ run in cc)
          | inr (h, e) ↦
              let rest = λ (x : Machine).
                ok (if hands_over image h a m.kernel then x else set_v0 (result image h x) x) in
              let same : system_call_helper image fn a b c m ≡ (call image h a b c m >>= rest) =
                rw (inside, e, system_call_helper) refl in
              let (u, e₁, e₂) = returned (call image h a b c m) rest t (sym same ∙ run) in
              let O' = call-InOrder image m u O low h a b c (safe h e) e₁ in
              subst (λ (x : Machine). InOrder x.kernel) (ok-inj e₂)
                (answered-InOrder (hands_over image h a m.kernel) (result image h u) u O')
        ]
      ]

  pub start_kernel-InOrder :
      (test_shell handler_begin handler_end : ℕ) (m t : Machine)
      → IsZeroed m.kernel
      → start_kernel image test_shell handler_begin handler_end m ≡ ok t
      → InOrder t.kernel
  unfolding start_kernel
  start_kernel-InOrder test_shell handler_begin handler_end m t zeroed run =
      let filled = record m { screen = fill_screens m.screen } in
      let booting = with_kernel (init_pcb image.handle_int test_shell m.kernel) filled in
      let rest = λ (x : Machine).
        with_screen (λ s. ok (init_screen s))
          (record x { memory = init_exception handler_begin handler_end x.memory }) in
      let (u, e, e') = returned booting rest t run in
      let O =
        with_kernel-InOrder (init_pcb image.handle_int test_shell m.kernel) filled u
          (init_pcb-InOrder image.handle_int test_shell m.kernel zeroed) e in
      with_screen-InOrder (λ s. ok (init_screen s))
        (record u { memory = init_exception handler_begin handler_end u.memory }) t O e'
