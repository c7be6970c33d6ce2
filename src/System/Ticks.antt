-- ===== src/System/Ticks.antt =====
-- Interrupts of the timer in the states that the kernel reaches: `interrupt_helper` of kernel/irq/irq.c, and
-- behind each what the process that goes on does until it is in user mode, where the next interrupt
-- finds it.
use os_prj.Prelude.{ℕ, zero, suc, ◌≡◌, Bool, true, false, List}
use os_prj.Run.{Run, ok, ◌>>=◌}
use os_prj.Queue.Represents.{Lists}
use os_prj.Kernel.{Continuation}
use os_prj.Syscall.{Image, Machine}
use os_prj.Interrupt.{interrupt_helper, resume}
use os_prj.System.Invariant.{IsOrderly}
use os_prj.System.Reach.{Reach}

-- `n` times: the timer interrupts the current process, and the process that the scheduler picks goes
-- on until it is in user mode.
abbrev pub ticks : Image → ℕ → Machine → Run Machine
ticks image zero m = ok m
ticks image (suc n) m = do m ← interrupt_helper 0x8000 m; m ← resume image m; ticks image n m

-- A process that goes on here comes to user mode without another call of the scheduler.
abbrev pub returns : Continuation → Bool
returns Continuation.enter = true
returns Continuation.leave = true
returns (Continuation.acquire a) = false
returns Continuation.timer = true

abbrev pub comes_back : Machine → ℕ → Bool
comes_back m a = returns (m.kernel.pcb a).continuation

-- What going on leaves as it was.
abbrev Returned : Machine → Lists → Machine → Type 0
Returned m L t =
    IsOrderly t.kernel L
    × (t.kernel.current_running ≡ m.kernel.current_running)
    × ((a : ℕ) → comes_back t a ≡ comes_back m a)
