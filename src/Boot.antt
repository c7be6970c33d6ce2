-- ===== src/Boot.antt =====
-- `_start` and `init_exception` of init/main.c, without what they tell the processor's registers and
-- the serial port: how the machine is when the kernel waits for its first interrupt.
pub mod Start
use os_prj.Prelude.{ℕ, zero, suc, ◌+◌, ◌-◌, ◌*◌, update}
use os_prj.Run.{Run, ok, ◌>>=◌}
use os_prj.Text.{Memory, memcpy}
use os_prj.Screen.{Screen, screen_width, screen_height, init_screen}
use os_prj.Process.{init_pcb}
use os_prj.Syscall.{Image, Machine, with_kernel, with_screen}

-- `for (i = 0; i < SCREEN_HEIGHT * SCREEN_WIDTH; i++) old_screen[i] = '0';`, with the rounds left.
unfoldable pub fill_loop : (n i : ℕ) → (ℕ → ℕ) → ℕ → ℕ
fill_loop zero i cells = cells
fill_loop (suc n) i cells = fill_loop n (i + 1) (update cells i 48)

unfoldable pub fill_screens : Screen → Screen
fill_screens s =
    let s = record s { old_screen = fill_loop (screen_height * screen_width) 0 s.old_screen } in
    record s { new_screen = fill_loop (screen_height * screen_width) 0 s.new_screen }

-- The handler, which the linker put between two addresses, goes to `BEV0_EBASE + BEV0_OFFSET`.
unfoldable pub init_exception : (handler_begin handler_end : ℕ) → Memory → Memory
init_exception handler_begin handler_end m =
    memcpy (handler_end - handler_begin) (0x80000000 + 0x180) handler_begin m

-- `_start` up to its last loop
unfoldable pub start_kernel :
    Image → (test_shell handler_begin handler_end : ℕ) → Machine → Run Machine
start_kernel image test_shell handler_begin handler_end m = do
  m ←
      with_kernel (init_pcb image.handle_int test_shell m.kernel)
        (record m { screen = fill_screens m.screen })
  with_screen (λ s. ok (init_screen s))
      (record m { memory = init_exception handler_begin handler_end m.memory })
