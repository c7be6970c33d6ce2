-- ===== src/Tests/Waiting.antt =====
-- The objects of kernel/locking/ in states that a kernel with two processes reaches.
use os_prj.Queue.{of_mutex, of_semaphore, of_barrier, of_condition}
use os_prj.Kernel.{State}
use os_prj.Locking.Semaphore.{do_semaphore_down, lower}
use os_prj.Prelude.{
  ◌-ℤ◌, ◌∙◌, sym, has, length, neg_part, ltb_ℤ, ℕ, ◌≡◌, ◌<◌, refl, true, some, arith, pos,
}
use mathlib.Core.Path.{subst}
use os_prj.Run.{ok}
use os_prj.Queue.Represents.{Represents, Lists}
use os_prj.Kernel.{locked}
use os_prj.Boot.{start_kernel}
use os_prj.Process.{init_pcb, boot_table, do_spawn, spawn_at, find_spare}
use os_prj.Queue.{queue_push, queue_init, queue_is_empty, queue_dequeue}
use os_prj.Sched.{
  do_scheduler, scheduler, suspend, check_sleeping, check_loop, requeue, pick, dispatch, get_timer,
  do_block,
}
use os_prj.Syscall.{Handler, Machine, system_call_helper, init_syscall, call, hands_over}
use os_prj.Interrupt.{interrupt_helper, irq_timer}
use os_prj.System.Handlers.{IsSafe}
use os_prj.System.Reach.{Reach, Reach-IsCounted}
use os_prj.Tests.Devices.{image}
use os_prj.Kernel.{leave}
use os_prj.Sched.Unblock.{drained, served, roused, wake_all}
use os_prj.Locking.Semaphore.{do_semaphore_up}
use os_prj.Locking.Barrier.{do_barrier_init, do_barrier_wait}
use os_prj.Locking.Barrier.Rounds.{gathered, met}
use os_prj.Locking.Condition.{do_condition_signal, do_condition_broadcast}
use os_prj.System.Waiting.{Reach-wakes, Reach-gathers}
use os_prj.Tests.Systems.{value, running_machine, running-Reach, runs_1}

-- The shell spawns a process, which goes on and waits at the semaphore 0.
abbrev pub spawned_machine : Machine
spawned_machine = value (system_call_helper image (pos 40) 0xa0803000 0 0 running_machine)

abbrev waiting_machine : Machine
waiting_machine = value (system_call_helper image (pos 52) 0 0 0 spawned_machine)

pub other-IsSafe :
    (n : ℕ) (g h : Handler)
    → init_syscall n ≡ some g
    → ((a : ℕ) (s : State) → IsSafe image g a s)
    → (a : ℕ) (s : State) → init_syscall n ≡ some h
    → IsSafe image h a s
other-IsSafe n g h at safe a s e =
    let it : some g ≡ some h = sym at ∙ e in
    let same : g ≡ h = cc in subst (λ x. IsSafe image x a s) same (safe a s)

pub spawned-Reach : Reach image spawned_machine
unfolding start_kernel init_pcb boot_table queue_push queue_init interrupt_helper irq_timer
    do_scheduler scheduler suspend check_sleeping check_loop requeue pick dispatch queue_is_empty
    queue_dequeue get_timer system_call_helper init_syscall call do_spawn spawn_at find_spare
    hands_over
spawned-Reach =
    Reach.calls (pos 40) 0xa0803000 0 0 running_machine running-Reach (rw runs_1 (omega arith))
      (λ h e. other-IsSafe 40 Handler.spawn h refl (λ a s. tt) 0xa0803000 running_machine.kernel e)
      refl

waiting-Reach : Reach image waiting_machine
unfolding start_kernel init_pcb boot_table queue_push queue_init interrupt_helper irq_timer
    do_scheduler scheduler suspend check_sleeping check_loop requeue pick dispatch queue_is_empty
    queue_dequeue get_timer system_call_helper init_syscall call do_spawn spawn_at find_spare
    hands_over do_semaphore_down lower do_block ◌-ℤ◌
waiting-Reach =
    Reach.calls (pos 52) 0 0 0 spawned_machine spawned-Reach (omega arith)
      (λ h e. other-IsSafe 52 Handler.sem_down h refl (λ a s. tt) 0 spawned_machine.kernel e) refl

Reach-IsCounted_example :
    (L : Lists) × Represents waiting_machine.kernel.links L
    × ((k : ℕ) → neg_part (waiting_machine.kernel.semaphore k) ≡ length (L (of_semaphore k)))
    × ((k : ℕ) → waiting_machine.kernel.num_waiting k ≡ pos (length (L (of_condition k))))
    × ((k : ℕ)
        → ltb_ℤ (pos 0) (waiting_machine.kernel.barrier k).num_expected ≡ true
        → ((waiting_machine.kernel.barrier k).num_now ≡ pos (length (L (of_barrier k))))
          × (ltb_ℤ
                (waiting_machine.kernel.barrier k).num_now
                (waiting_machine.kernel.barrier k).num_expected
              ≡ true))
    × ((k a : ℕ) → has a (L (of_mutex k)) ≡ true → (waiting_machine.kernel.mutex k).status ≡ locked)
Reach-IsCounted_example = Reach-IsCounted image waiting_machine waiting-Reach

-- The process sets up the barrier 0 for two.
abbrev gathering_machine : Machine
gathering_machine = value (system_call_helper image (pos 53) 0 2 0 spawned_machine)

gathering-Reach : Reach image gathering_machine
unfolding start_kernel init_pcb boot_table queue_push queue_init interrupt_helper irq_timer
    do_scheduler scheduler suspend check_sleeping check_loop requeue pick dispatch queue_is_empty
    queue_dequeue get_timer system_call_helper init_syscall call do_spawn spawn_at find_spare
    hands_over do_barrier_init
gathering-Reach =
    Reach.calls (pos 53) 0 2 0 spawned_machine spawned-Reach (omega arith)
      (λ h e. other-IsSafe 53 Handler.barrier_init h refl (λ a s. tt) 0 spawned_machine.kernel e)
      refl

expects_two : (gathering_machine.kernel.barrier 0).num_expected ≡ pos 2
unfolding start_kernel init_pcb boot_table queue_push queue_init interrupt_helper irq_timer
    do_scheduler scheduler suspend check_sleeping check_loop requeue pick dispatch queue_is_empty
    queue_dequeue get_timer system_call_helper init_syscall call do_spawn spawn_at find_spare
    hands_over do_barrier_init
expects_two = refl

runs_2 : gathering_machine.kernel.current_running ≡ 2
unfolding start_kernel init_pcb boot_table queue_push queue_init interrupt_helper irq_timer
    do_scheduler scheduler suspend check_sleeping check_loop requeue pick dispatch queue_is_empty
    queue_dequeue get_timer system_call_helper init_syscall call do_spawn spawn_at find_spare
    hands_over do_barrier_init
runs_2 = refl

Reach-gathers_example :
    let s = gathering_machine.kernel in
    (L : Lists) × Represents s.links L
    × (length (L (of_barrier 0)) < 2)
    × ((t : State) × (do_barrier_wait 0 s ≡ do_scheduler leave t)
        × Represents t.links (gathered 0 2 s L)
        × (t.pcb ≡ met 0 2 s L))
Reach-gathers_example =
    Reach-gathers image gathering_machine gathering-Reach 0 2 expects_two (omega arith)
      (rw runs_2 (omega arith))

Reach-wakes_example :
    let s = waiting_machine.kernel in
    (L : Lists) × Represents s.links L
    × ((k : ℕ)
        → (t : State) × (do_semaphore_up k s ≡ do_scheduler leave t)
          × Represents t.links (served (of_semaphore k) L)
          × (t.pcb ≡ roused (L (of_semaphore k)) s.pcb))
    × ((k : ℕ)
        → (t : State) × (do_condition_signal k s ≡ ok t)
          × Represents t.links (served (of_condition k) L)
          × (t.pcb ≡ roused (L (of_condition k)) s.pcb))
    × ((k : ℕ)
        → (t : State) × (do_condition_broadcast k s ≡ ok t)
          × Represents t.links (drained (of_condition k) L)
          × (t.pcb ≡ wake_all (L (of_condition k)) s.pcb))
Reach-wakes_example = Reach-wakes image waiting_machine waiting-Reach
