-- ===== src/Tests/Ticking.antt =====
-- Interrupts of the timer with three processes: two of them waited for the third, which ended.
use os_prj.Prelude.{Bool, false, true, pos}
use os_prj.Run.{Run, ok}
use os_prj.Syscall.{Machine, system_call_helper}
use os_prj.Interrupt.{interrupt_helper}
use os_prj.System.Reach.{Reach}
use os_prj.Tests.Devices.{image}
use os_prj.Tests.Systems.{value}
use os_prj.Tests.Waiting.{spawned_machine}

abbrev is_ok : Run Machine → Bool
is_ok (ok m) = true
is_ok _ = false

-- Process 2 creates process 3, which waits for it.
abbrev two_machine : Machine
two_machine = value (system_call_helper image (pos 40) 0xa0804000 0 0 spawned_machine)

abbrev asked_machine : Machine
asked_machine = value (system_call_helper image (pos 41) 2 0 0 two_machine)

-- The timer interrupts process 2, and the shell waits for it, too.
abbrev switched_machine : Machine
switched_machine = value (interrupt_helper 0x8000 asked_machine)

abbrev both_machine : Machine
both_machine = value (system_call_helper image (pos 41) 2 0 0 switched_machine)

-- Process 2 ends: process 3 goes on, and the shell is ready.
abbrev ended_machine : Machine
ended_machine = value (system_call_helper image (pos 43) 0 0 0 both_machine)
