-- ===== src/Screen/Flush.antt =====
-- `screen_reflush` and `screen_clear` of drivers/screen.c
use os_prj.Prelude.{
  ℕ, zero, suc, ◌+◌, ◌-◌, ◌*◌, ◌<◌, ◌≡◌, ◌∙◌, refl, sym, true, arith, ◌==◌, ==_self, eq_of_==, ltb,
  pos, update, if◌then◌else◌, Bool-cases, inl, inr,
}
use os_prj.Text.Copy.{within}
use os_prj.Screen.{
  Screen, reflush_cell, screen_width, screen_height, vt100_move_cursor, reflush_row, reflush_rows,
  screen_reflush, clear_row, clear_rows, screen_clear,
}

reflush_cell-shown :
    (j i : ℕ) (s : Screen) (k : ℕ)
    → ((reflush_cell j i s).new_screen k ≡ s.new_screen k)
      × ((reflush_cell j i s).old_screen k
          ≡ (if i * 80 + j == k then s.new_screen k else s.old_screen k))
unfolding reflush_cell vt100_move_cursor
reflush_cell-shown j i s k =
    elim (Bool-cases (s.new_screen (i * 80 + j) == s.old_screen (i * 80 + j))) [
      | inl same ↦ ground (
        arith,
        eq_of_== (s.new_screen (i * 80 + j)) (s.old_screen (i * 80 + j)),
        eq_of_== (i * 80 + j) k,
      )
      | inr differ ↦ ground (arith, eq_of_== (i * 80 + j) k)
    ]

reflush_row-shown :
    (n j i : ℕ) (s : Screen) (k : ℕ)
    → ((reflush_row n j i s).new_screen k ≡ s.new_screen k)
      × ((reflush_row n j i s).old_screen k
          ≡ (if within (i * 80 + j) n k then s.new_screen k else s.old_screen k))
unfolding reflush_row
reflush_row-shown zero j i s k = (refl, ground arith)
reflush_row-shown (suc n) j i s k =
    let cell = reflush_cell-shown j i s k in
    let rest = reflush_row-shown n (j + 1) i (reflush_cell j i s) k in
    (rest.0 ∙ cell.0, ground (arith, cell, rest, ==_self k))

reflush_rows-shown :
    (n i : ℕ) (s : Screen) (k : ℕ)
    → ((reflush_rows n i s).new_screen k ≡ s.new_screen k)
      × ((reflush_rows n i s).old_screen k
          ≡ (if within (i * 80) (n * 80) k then s.new_screen k else s.old_screen k))
unfolding reflush_rows
reflush_rows-shown zero i s k = (refl, ground arith)
reflush_rows-shown (suc n) i s k =
    let row = reflush_row-shown 80 0 i s k in
    let rest = reflush_rows-shown n (i + 1) (reflush_row 80 0 i s) k in
    (rest.0 ∙ row.0, ground (arith, row, rest))

clear_row-blank :
    (n i : ℕ) (s : Screen) (k : ℕ)
    → ((clear_row n i s).new_screen k ≡ (if within i n k then 32 else s.new_screen k))
      × ((clear_row n i s).old_screen k ≡ (if within i n k then 0 else s.old_screen k))
unfolding clear_row
clear_row-blank zero i s k = (ground arith, ground arith)
clear_row-blank (suc n) i s k =
    let rest =
      clear_row-blank n (i + 1)
        (record s { new_screen = update s.new_screen i 32; old_screen = update s.old_screen i 0 })
        k in
    (ground (arith, rest.0, ==_self k), ground (arith, rest.1, ==_self k))

clear_rows-blank :
    (n i : ℕ) (s : Screen) (k : ℕ)
    → ((clear_rows n i s).new_screen k
        ≡ (if within (i * 80) (n * 80) k then 32 else s.new_screen k))
      × ((clear_rows n i s).old_screen k
          ≡ (if within (i * 80) (n * 80) k then 0 else s.old_screen k))
unfolding clear_rows
clear_rows-blank zero i s k = (ground arith, ground arith)
clear_rows-blank (suc n) i s k =
    let row = clear_row-blank 80 (i * 80) s k in
    let rest = clear_rows-blank n (i + 1) (clear_row 80 (i * 80) s) k in
    (ground (arith, row.0, rest.0), ground (arith, row.1, rest.1))

-- After `screen_reflush` the buffer of what was sent agrees with the screen at each place of the
-- screen, other places of it are as before, and the screen itself has not changed.
pub screen_reflush-shown :
    (s : Screen) (k : ℕ)
    → ((screen_reflush s).new_screen k ≡ s.new_screen k)
      × ((screen_reflush s).old_screen k
          ≡ (if ltb k (screen_height * screen_width) then s.new_screen k else s.old_screen k))
unfolding screen_reflush vt100_move_cursor
screen_reflush-shown s k =
    let rows = reflush_rows-shown 30 0 s k in (rows.0, ground (arith, rows.1))

-- `screen_clear` makes the lines from `line1` to `line2`, or to the last line of the screen, blank
-- and leaves the other places of the screen; what was sent then agrees with the screen there.
pub screen_clear-blank :
    (line1 line2 : ℕ) (s : Screen) (k : ℕ)
    → k < screen_height * screen_width
    → ((screen_clear line1 line2 s).new_screen k ≡ (
        if within (line1 * screen_width) ((line2 + 1 - line1) * screen_width) k
        then 32
        else s.new_screen k))
      × ((screen_clear line1 line2 s).old_screen k ≡ (screen_clear line1 line2 s).new_screen k)
unfolding screen_clear
screen_clear-blank line1 line2 s k inside =
    let last : ℕ = if ltb line2 screen_height then line2 + 1 else screen_height in
    let cleared = clear_rows-blank (last - line1) line1 s k in
    let flushed =
      screen_reflush-shown
        (record (clear_rows (last - line1) line1 s) { cursor_x = pos 0; cursor_y = pos 0 }) k in
    let lines : within (line1 * 80) ((last - line1) * 80) k
        ≡ within (line1 * 80) ((line2 + 1 - line1) * 80) k =
      ground arith in
    let on : ltb k (screen_height * screen_width) ≡ true = ground arith in
    (flushed.0 ∙ cleared.0 ∙ rw lines refl, flushed.1 ∙ rw on (sym flushed.0))
