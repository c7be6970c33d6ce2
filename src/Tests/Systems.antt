-- ===== src/Tests/Systems.antt =====
-- The kernel from its start to the first lock that its first process takes.
use os_prj.Boot.Start.{start_kernel-ready}
use os_prj.Process.Table.{booted}
use os_prj.Queue.{QueueId, eq_of_queue_eq}
use os_prj.Queue.Represents.{num_max_task}
use os_prj.Kernel.{State, TaskStatus, Continuation, not_exist}
use os_prj.System.Invariant.{IsOrderly}
use os_prj.System.Rounds.{turns, turns-reach}
use os_prj.Tests.{three_links, three_lists, three-Represents, no_lists}
use os_prj.Prelude.{[], ◌∷◌, ◌+◌, ◌-◌, ◌*◌, inl, ℕ, ◌≡◌, ◌<◌, refl, true, some, arith, pos}
use mathlib.Core.Path.{subst}
use os_prj.Run.{Run, ok}
use os_prj.Queue.Represents.{Represents, Lists, IsFree}
use os_prj.Kernel.{blocked, running, locked, current}
use os_prj.Locking.Mutex.Owned.{holds}
use os_prj.Boot.{start_kernel}
use os_prj.Process.{init_pcb, boot_table}
use os_prj.Queue.{queue_push, queue_init, queue_is_empty, queue_dequeue}
use os_prj.Sched.{
  do_scheduler, scheduler, suspend, check_sleeping, check_loop, requeue, pick, dispatch, get_timer,
}
use os_prj.Locking.Mutex.{do_mutex_lock_acquire, take_lock}
use os_prj.Syscall.{Handler, Machine, system_call_helper, init_syscall, call, hands_over}
use os_prj.Interrupt.{interrupt_helper, irq_timer}
use os_prj.System.Placed.{IsPlaced}
use os_prj.System.Handlers.{IsSafe}
use os_prj.System.Reach.{Reach, Reach-IsPlaced, Reach-exclusive}
use os_prj.System.Zeroed.{IsZeroed}
use os_prj.Tests.{no_links, no-Represents, kernel, block_of}
use os_prj.Tests.Devices.{machine, image}

-- A machine whose memory is zeroed.
abbrev pub cold : Machine
cold = record machine {
  kernel = record (kernel no_links blocked) {
    pcb = λ i. record (block_of 0 blocked) { pid = pos 0 };
    current_running = 0;
    semaphore = λ k. pos 0;
    num_waiting = λ k. pos 0;
    barrier = λ k. record { num_expected = pos 0; num_now = pos 0 };
  };
}

cold-IsZeroed : IsZeroed cold.kernel
cold-IsZeroed = record {
  queues = no-Represents;
  pids = λ a. refl;
  owns = λ k a. refl;
  statuses = λ a. refl;
  semaphores = λ k. refl;
  conditions = λ k. refl;
  barriers = λ k. refl;
}

-- What a run returns.
abbrev pub value : Run Machine → Machine
value (ok m) = m
value _ = cold

abbrev pub booted_machine : Machine
booted_machine = value (start_kernel image 0xa0802000 0x100 0x140 cold)

abbrev pub running_machine : Machine
running_machine = value (interrupt_helper 0x8000 booted_machine)

abbrev locking_machine : Machine
locking_machine = value (system_call_helper image (pos 31) 0 0 0 running_machine)

booted-Reach : Reach image booted_machine
unfolding start_kernel init_pcb boot_table queue_push queue_init
booted-Reach = Reach.start 0xa0802000 0x100 0x140 cold cold-IsZeroed refl

pub running-Reach : Reach image running_machine
unfolding start_kernel init_pcb boot_table queue_push queue_init interrupt_helper irq_timer
    do_scheduler scheduler suspend check_sleeping check_loop requeue pick dispatch queue_is_empty
    queue_dequeue get_timer
running-Reach = Reach.interrupts 0x8000 booted_machine booted-Reach refl

pub runs_1 : running_machine.kernel.current_running ≡ 1
unfolding start_kernel init_pcb boot_table queue_push queue_init interrupt_helper irq_timer
    do_scheduler scheduler suspend check_sleeping check_loop requeue pick dispatch queue_is_empty
    queue_dequeue get_timer
runs_1 = refl

acquire-IsSafe : (h : Handler) → init_syscall 31 ≡ some h → IsSafe image h 0 running_machine.kernel
unfolding init_syscall
acquire-IsSafe h e =
    let it : some Handler.mutex_acquire ≡ some h = e in
    let same : Handler.mutex_acquire ≡ h = cc in
    subst (λ x. IsSafe image x 0 running_machine.kernel) same tt

locking-Reach : Reach image locking_machine
unfolding start_kernel init_pcb boot_table queue_push queue_init interrupt_helper irq_timer
    do_scheduler scheduler suspend check_sleeping check_loop requeue pick dispatch queue_is_empty
    queue_dequeue get_timer system_call_helper init_syscall call do_mutex_lock_acquire take_lock
    hands_over
locking-Reach =
    Reach.calls (pos 31) 0 0 0 running_machine running-Reach (rw runs_1 (omega arith))
      acquire-IsSafe refl

held : holds 0 (locking_machine.kernel.pcb 1).lock_owned ≡ true
unfolding start_kernel init_pcb boot_table queue_push queue_init interrupt_helper irq_timer
    do_scheduler scheduler suspend check_sleeping check_loop requeue pick dispatch queue_is_empty
    queue_dequeue get_timer system_call_helper init_syscall call do_mutex_lock_acquire take_lock
    hands_over
held = refl

abbrev shell : ℕ
shell = 1

Reach-exclusive_example :
    (shell ≡ shell)
    × ((locking_machine.kernel.mutex 0).status ≡ locked)
    × ((locking_machine.kernel.mutex 0).owner ≡ (locking_machine.kernel.pcb 1).pid)
Reach-exclusive_example =
    Reach-exclusive image locking_machine locking-Reach 0 shell shell (omega arith) (omega arith)
      held held

Reach-IsPlaced_example :
    (L : Lists) × Represents locking_machine.kernel.links L
    × IsPlaced locking_machine.kernel.pcb L
    × (0 < locking_machine.kernel.current_running
        → ((current locking_machine.kernel).status ≡ running)
          × IsFree locking_machine.kernel.current_running L)
Reach-IsPlaced_example = Reach-IsPlaced image locking_machine locking-Reach

start_kernel-ready_example :
    (t : Machine) × (start_kernel image 0xa0802000 0x100 0x140 cold ≡ ok t)
    × Represents t.kernel.links (booted no_lists)
    × (t.kernel.current_running ≡ 0)
    × ((t.kernel.pcb 1).pid ≡ pos 1)
    × ((i : ℕ) → 1 < i → i < num_max_task → (t.kernel.pcb i).status ≡ not_exist)
    × ((k : ℕ) → k < 30 * 80 → (t.screen.new_screen k ≡ 32) × (t.screen.old_screen k ≡ 32))
    × ((k : ℕ) → k < 0x140 - 0x100 → t.memory (0x80000180 + k) ≡ cold.memory (0x100 + k))
start_kernel-ready_example =
    start_kernel-ready image 0xa0802000 0x100 0x140 cold no-Represents (inl (omega arith))

-- Three processes are ready, and a fourth runs.
abbrev busy : State
busy = kernel (three_links (QueueId.ready 0)) TaskStatus.ready

busy-IsOrderly : IsOrderly busy (three_lists (QueueId.ready 0))
busy-IsOrderly = record {
  settled = record {
    queues = three-Represents (QueueId.ready 0);
    placed = λ q a h. ground (arith, eq_of_queue_eq (QueueId.ready 0) q);
    members = λ q a h. ground arith;
    inside = omega arith;
    leaves = refl;
    rested = λ h. cc;
    caller = λ low. refl;
    accounts = record {
      owned = λ m a high h. cc;
      unique = λ a b ha hb n same. cc;
      fresh = λ a high. ground arith;
      positive = refl;
      holders = λ m a high h. cc;
    };
  };
  runs = λ low. refl;
}

turns-reach_example :
    (t : State) × (M : Lists) × (turns 3 Continuation.timer busy ≡ ok t)
    × (t.current_running ≡ 3)
    × IsOrderly t M
turns-reach_example =
    turns-reach Continuation.timer (1 ∷ 2 ∷ []) 3 [] busy (three_lists (QueueId.ready 0))
      busy-IsOrderly refl refl
