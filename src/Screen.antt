-- ===== src/Screen.antt =====
-- drivers/screen.c: the screen buffers and what is sent to the serial port.
pub mod Cursor
pub mod Flush
pub mod Scroll
use os_prj.Prelude.{
  ℕ, zero, suc, ◌+◌, ◌-◌, ◌*◌, ◌/◌, Bool, true, false, not, List, [], ◌∷◌, ◌++◌, ◌==◌, ltb, leb, ℤ,
  pos, negsuc, ◌+ℤ◌, ◌-ℤ◌, ltb_ℤ, leb_ℤ, update, if◌then◌else◌,
}
use os_prj.Run.{Run, ok, fault, ◌>>=◌}
use os_prj.Text.{Memory, strlen}

-- `SCREEN_WIDTH` and `SCREEN_HEIGHT`
abbrev pub screen_width : ℕ
screen_width = 80

abbrev pub screen_height : ℕ
screen_height = 30

-- What goes to the serial port: a character, or one of the VT100 sequences.
pub data Output : Type 0 where
  char : ℕ → Output
  move_cursor : ℤ → ℤ → Output
  clear hidden_cursor : Output

-- The global variables of the file.
pub record Screen : Type 0 where
  pub cursor_x : ℤ
  pub cursor_y : ℤ
  pub new_screen : ℕ → ℕ
  pub old_screen : ℕ → ℕ
  pub port : List Output

abbrev pub send : Output → Screen → Screen
send o s = record s { port = s.port ++ o ∷ [] }

abbrev pub set_new : (k c : ℕ) → Screen → Screen
set_new k c s = record s { new_screen = update s.new_screen k c }

abbrev pub set_old : (k c : ℕ) → Screen → Screen
set_old k c s = record s { old_screen = update s.old_screen k c }

unfoldable pub vt100_move_cursor : ℤ → ℤ → Screen → Screen
vt100_move_cursor x y s = send (move_cursor x y) s

-- `y * SCREEN_WIDTH + x`
unfoldable pub index : ℤ → ℤ → ℤ
index x (pos y) = pos (y * screen_width) +ℤ x
index x (negsuc y) = negsuc (y * screen_width + 79) +ℤ x

-- A place in a screen buffer: a fault behind its ends.
abbrev pub slot : ℤ → Run ℕ
slot (pos k) = if ltb k (screen_height * screen_width) then ok k else fault
slot (negsuc k) = fault

-- The first double loop of `screen_scroll`: rows `i` and up, of which `n` are left.
unfoldable pub forget_row : (n k : ℕ) → Screen → Screen
forget_row zero k s = s
forget_row (suc n) k s = forget_row n (k + 1) (set_old k 0 s)

unfoldable pub forget_rows : (n i : ℕ) → Screen → Screen
forget_rows zero i s = s
forget_rows (suc n) i s = forget_rows n (i + 1) (forget_row screen_width (i * screen_width) s)

-- The second double loop, with its row `i`, whose places from `k` on have `n` left.
unfoldable pub shift_row : (last : Bool) → (n k : ℕ) → Screen → Screen
shift_row last zero k s = s
shift_row last (suc n) k s =
    shift_row last n (k + 1) (set_new k (if last then 32 else s.new_screen (k + screen_width)) s)

unfoldable pub shift_rows : (n i line2 : ℕ) → Screen → Screen
shift_rows zero i line2 s = s
shift_rows (suc n) i line2 s =
    shift_rows n (i + 1) line2 (shift_row (i == line2) screen_width (i * screen_width) s)

unfoldable pub screen_scroll : (line1 line2 : ℕ) → Screen → Screen
screen_scroll line1 line2 s =
    let rows = line2 + 1 - line1 in shift_rows rows line1 line2 (forget_rows rows line1 s)

abbrev pub new_line : Screen → Screen
new_line s = record s { cursor_x = pos 0; cursor_y = s.cursor_y +ℤ pos 1 }

-- `new_screen[screen_cursor_y * SCREEN_WIDTH + screen_cursor_x] = ch`
unfoldable pub put_char : ℕ → Screen → Run Screen
put_char ch s = do k ← slot (index s.cursor_x s.cursor_y); ok (set_new k ch s)

-- The chain of tests on the character.
unfoldable pub type_char : ℕ → Screen → Run Screen
type_char ch s =
    if ch == 10
    then ok (new_line s)
    else if ch == 8
    then (if ltb_ℤ (pos 0) s.cursor_x
        then put_char 32 (record s { cursor_x = s.cursor_x -ℤ pos 1 })
        else ok s)
    else if ch == 13
    then ok (new_line s)
    else (do s ← put_char ch s; ok (record s { cursor_x = s.cursor_x +ℤ pos 1 }))

-- The last two tests of `screen_write_ch`, on the row of the cursor: a cursor below the screen scrolls the lower half of it.
unfoldable pub clamp_row : Screen → Screen
clamp_row s =
    let s = if ltb_ℤ s.cursor_y (pos 0) then record s { cursor_y = pos 0 } else s in
    if leb_ℤ (pos screen_height) s.cursor_y
    then record (screen_scroll (screen_height / 2 + 1) (screen_height - 1) s) {
      cursor_x = pos 0;
      cursor_y = pos (screen_height - 1);
    }
    else s

-- The four tests behind those on the character, which bring the cursor back to the screen.
unfoldable pub clamp : Screen → Screen
clamp s =
    let s = if ltb_ℤ s.cursor_x (pos 0) then record s { cursor_x = pos 0 } else s in
    let s =
      if leb_ℤ (pos screen_width) s.cursor_x
      then record s { cursor_y = s.cursor_y +ℤ pos 1; cursor_x = pos 0 }
      else s in
    clamp_row s

unfoldable pub screen_write_ch : ℕ → Screen → Run Screen
screen_write_ch ch s = do s ← type_char ch s; ok (clamp s)

-- `for (i = 0; i < l; i++)`, with the rounds left.
unfoldable pub write_loop : (n i buff : ℕ) → Memory → Screen → Run Screen
write_loop zero i buff m s = ok s
write_loop (suc n) i buff m s = do
  s ← screen_write_ch (m (buff + i)) s
  write_loop n (i + 1) buff m s

unfoldable pub screen_write : (fuel buff : ℕ) → Memory → Screen → Run Screen
screen_write fuel buff m s = do l ← strlen fuel buff m; write_loop l 0 buff m s

-- The place in row `i` and column `j` of `screen_reflush`: only what was modified is sent.
unfoldable pub reflush_cell : (j i : ℕ) → Screen → Screen
reflush_cell j i s =
    let k = i * screen_width + j in
    if s.new_screen k == s.old_screen k
    then s
    else set_old k (s.new_screen k)
        (send (char (s.new_screen k)) (vt100_move_cursor (pos (j + 1)) (pos (i + 1)) s))

-- Row `i` from column `j` on, of which `n` are left.
unfoldable pub reflush_row : (n j i : ℕ) → Screen → Screen
reflush_row zero j i s = s
reflush_row (suc n) j i s = reflush_row n (j + 1) i (reflush_cell j i s)

unfoldable pub reflush_rows : (n i : ℕ) → Screen → Screen
reflush_rows zero i s = s
reflush_rows (suc n) i s = reflush_rows n (i + 1) (reflush_row screen_width 0 i s)

unfoldable pub screen_reflush : Screen → Screen
screen_reflush s =
    let s = reflush_rows screen_height 0 s in vt100_move_cursor s.cursor_x s.cursor_y s

unfoldable pub clear_row : (n k : ℕ) → Screen → Screen
clear_row zero k s = s
clear_row (suc n) k s = clear_row n (k + 1) (set_old k 0 (set_new k 32 s))

unfoldable pub clear_rows : (n i : ℕ) → Screen → Screen
clear_rows zero i s = s
clear_rows (suc n) i s = clear_rows n (i + 1) (clear_row screen_width (i * screen_width) s)

-- The loop runs from `line1` to `line2` or to the last line, whichever comes first.
unfoldable pub screen_clear : (line1 line2 : ℕ) → Screen → Screen
screen_clear line1 line2 s =
    let last = if ltb line2 screen_height then line2 + 1 else screen_height in
    screen_reflush
      (record (clear_rows (last - line1) line1 s) { cursor_x = pos 0; cursor_y = pos 0 })

-- `screen_clear` on any two numbers: a first line above the screen makes it write before the buffers,
-- and with `line2` before `line1` no line is cleared.
unfoldable pub clear_lines : (line1 line2 : ℤ) → Screen → Run Screen
clear_lines (pos a) (pos b) s = ok (screen_clear a b s)
clear_lines (pos a) (negsuc b) s = ok (screen_clear 1 0 s)
clear_lines (negsuc a) line2 s = if leb_ℤ (negsuc a) line2 then fault else ok (screen_clear 1 0 s)

unfoldable pub init_screen : Screen → Screen
init_screen s = screen_clear 0 (screen_height - 1) (send clear (send hidden_cursor s))

unfoldable pub screen_move_cursor : ℤ → ℤ → Screen → Screen
screen_move_cursor x y s = record s { cursor_x = x; cursor_y = y }
