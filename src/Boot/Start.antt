-- ===== src/Boot/Start.antt =====
-- How `_start` of init/main.c leaves the machine.
use os_prj.Prelude.{ℕ, ◌+◌, ◌-◌, ◌*◌, ◌≤◌, ◌<◌, ◌≡◌, ◌⊎◌, ◌∙◌, refl, true, [], arith, inl, inr, pos}
use os_prj.Run.{ok}
use os_prj.Queue.Represents.{Represents, num_max_task}
use os_prj.Kernel.{not_exist}
use os_prj.Text.Copy.{within, memcpy-copies}
use os_prj.Screen.{Output, Screen, screen_width, screen_height, init_screen, screen_clear, send}
use os_prj.Screen.Flush.{screen_clear-blank}
use os_prj.Process.Table.{booted, init_pcb-booted}
use os_prj.Syscall.{Image, Machine}
use os_prj.Boot.{start_kernel, init_exception, fill_screens}

init_screen-blank :
    (s : Screen) (k : ℕ)
    → k < screen_height * screen_width
    → ((init_screen s).new_screen k ≡ 32) × ((init_screen s).old_screen k ≡ 32)
unfolding init_screen
init_screen-blank s k inside =
    let u = send Output.clear (send Output.hidden_cursor s) in
    let cleared = screen_clear-blank 0 29 u k inside in
    let on : within 0 2400 k ≡ true = ground arith in
    let blank : (screen_clear 0 29 u).new_screen k ≡ 32 = cleared.0 ∙ rw on refl in
    (blank, cleared.1 ∙ blank)

module _ (image : Image) (test_shell handler_begin handler_end : ℕ) (m : Machine)
    (R : Represents m.kernel.links (λ q. [])) where
  -- `_start` gets to its last loop: the shell, with number 1, is the only process in a queue, the
  -- blocks from `pcb[2]` on are free, `pcb[0]` is the current block, the screen is blank and what
  -- was sent agrees with it, and the interrupt handler is copied to its address. The queues were
  -- empty, and the handler lies wholly before that address, or nowhere before it.
  pub start_kernel-ready :
      (handler_begin + (handler_end - handler_begin) ≤ 0x80000180) ⊎ (0x80000180 ≤ handler_begin)
      → (t : Machine) × (start_kernel image test_shell handler_begin handler_end m ≡ ok t)
        × Represents t.kernel.links (booted (λ q. []))
        × (t.kernel.current_running ≡ 0)
        × ((t.kernel.pcb 1).pid ≡ pos 1)
        × ((i : ℕ) → 1 < i → i < num_max_task → (t.kernel.pcb i).status ≡ not_exist)
        × ((k : ℕ)
            → k < screen_height * screen_width
            → (t.screen.new_screen k ≡ 32) × (t.screen.old_screen k ≡ 32))
        × ((k : ℕ)
            → k < handler_end - handler_begin
            → t.memory (0x80000180 + k) ≡ m.memory (handler_begin + k))
  unfolding start_kernel init_exception
  start_kernel-ready apart =
      let (s, e, R', _, runs, shell, _, free, _) =
        init_pcb-booted image.handle_int test_shell m.kernel R (λ q. refl) in
      let before = record (fill_screens m.screen) {
        cursor_x = s.screen_cursor_x;
        cursor_y = s.screen_cursor_y;
      } in
      let v = init_screen before in
      let len = handler_end - handler_begin in
      (
        record m {
          screen = v;
          memory = init_exception handler_begin handler_end m.memory;
          kernel = record s { screen_cursor_x = v.cursor_x; screen_cursor_y = v.cursor_y };
        },
        rw e refl,
        R',
        runs,
        shell,
        free,
        λ k inside. init_screen-blank before k inside,
        λ k low.
            let here : within 0x80000180 len (0x80000180 + k) ≡ true = ground arith in
            let from : handler_begin + (0x80000180 + k - 0x80000180) ≡ handler_begin + k =
              omega arith in
            memcpy-copies len 0x80000180 handler_begin m.memory (apart_of apart) (0x80000180 + k)
            ∙ rw (here, from) refl,
      )
    where
      apart_of :
          (handler_begin + (handler_end - handler_begin) ≤ 0x80000180)
            ⊎ (0x80000180 ≤ handler_begin)
          → (0x80000180 ≤ handler_begin)
            ⊎ (handler_begin + (handler_end - handler_begin) ≤ 0x80000180)
      apart_of (inl below) = inr below
      apart_of (inr above) = inl above
