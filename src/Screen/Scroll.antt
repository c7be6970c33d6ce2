-- ===== src/Screen/Scroll.antt =====
-- `screen_scroll` of drivers/screen.c
use os_prj.Prelude.{
  ℕ, zero, suc, ◌+◌, ◌-◌, ◌*◌, ◌≤◌, ◌≡◌, ◌∙◌, refl, Bool, arith, ◌==◌, ==_self, eq_of_==,
  if◌then◌else◌,
}
use os_prj.Text.Copy.{within}
use os_prj.Screen.{
  Screen, forget_row, forget_rows, shift_row, shift_rows, screen_scroll, screen_width, set_new,
  set_old,
}

forget_row-forgotten :
    (n i : ℕ) (s : Screen) (k : ℕ)
    → ((forget_row n i s).new_screen k ≡ s.new_screen k)
      × ((forget_row n i s).old_screen k ≡ (if within i n k then 0 else s.old_screen k))
unfolding forget_row
forget_row-forgotten zero i s k = (refl, ground arith)
forget_row-forgotten (suc n) i s k =
    let rest = forget_row-forgotten n (i + 1) (set_old i 0 s) k in
    (rest.0, ground (arith, rest.1, ==_self k))

forget_rows-forgotten :
    (n i : ℕ) (s : Screen) (k : ℕ)
    → ((forget_rows n i s).new_screen k ≡ s.new_screen k)
      × ((forget_rows n i s).old_screen k
          ≡ (if within (i * 80) (n * 80) k then 0 else s.old_screen k))
unfolding forget_rows
forget_rows-forgotten zero i s k = (refl, ground arith)
forget_rows-forgotten (suc n) i s k =
    let row = forget_row-forgotten 80 (i * 80) s k in
    let rest = forget_rows-forgotten n (i + 1) (forget_row 80 (i * 80) s) k in
    (rest.0 ∙ row.0, ground (arith, row.1, rest.1))

shift_row-shifted :
    (last : Bool) (n i : ℕ) (s : Screen) (k : ℕ)
    → ((shift_row last n i s).new_screen k
        ≡ (if within i n k then (if last then 32 else s.new_screen (k + 80)) else s.new_screen k))
      × ((shift_row last n i s).old_screen k ≡ s.old_screen k)
unfolding shift_row
shift_row-shifted last zero i s k = (ground arith, refl)
shift_row-shifted last (suc n) i s k =
    let u = set_new i (if last then 32 else s.new_screen (i + 80)) s in
    let rest = shift_row-shifted last n (i + 1) u k in
    (ground (arith, rest.0, eq_of_== i k, ==_self k), rest.1)

-- Each row takes that below it, and the row `line2` becomes blank.
shift_rows-shifted :
    (n i line2 : ℕ) (s : Screen) (k : ℕ)
    → i + n ≡ line2 + 1
    → ((shift_rows n i line2 s).new_screen k ≡ (
        if within (i * 80) (n * 80) k
        then (if within (line2 * 80) 80 k then 32 else s.new_screen (k + 80))
        else s.new_screen k))
      × ((shift_rows n i line2 s).old_screen k ≡ s.old_screen k)
unfolding shift_rows
shift_rows-shifted zero i line2 s k rows = (ground arith, refl)
shift_rows-shifted (suc n) i line2 s k rows =
    let u = shift_row (i == line2) 80 (i * 80) s in
    let row = shift_row-shifted (i == line2) 80 (i * 80) s k in
    let below = shift_row-shifted (i == line2) 80 (i * 80) s (k + 80) in
    let rest = shift_rows-shifted n (i + 1) line2 u k (omega (arith, rows)) in
    (ground (arith, row.0, below.0, rest.0, eq_of_== i line2, rows), rest.1 ∙ row.1)

-- `screen_scroll` moves the lines from `line1` to `line2` up by one and makes `line2` blank, marks
-- the places of these lines as not sent, and leaves all other places; `line1` is not behind
-- `line2`.
pub screen_scroll-shifted :
    (line1 line2 : ℕ) (s : Screen) (k : ℕ)
    → line1 ≤ line2
    → let rows = line2 + 1 - line1 in
      ((screen_scroll line1 line2 s).new_screen k ≡ (
        if within (line1 * screen_width) (rows * screen_width) k
        then (if within (line2 * screen_width) screen_width k
            then 32
            else s.new_screen (k + screen_width))
        else s.new_screen k))
      × ((screen_scroll line1 line2 s).old_screen k
          ≡ (if within (line1 * screen_width) (rows * screen_width) k then 0 else s.old_screen k))
unfolding screen_scroll
screen_scroll-shifted line1 line2 s k ordered =
    let rows = line2 + 1 - line1 in
    let u = forget_rows rows line1 s in
    let gone = forget_rows-forgotten rows line1 s k in
    let below = forget_rows-forgotten rows line1 s (k + 80) in
    let moved = shift_rows-shifted rows line1 line2 u k (omega (arith, ordered)) in
    (moved.0 ∙ rw (gone.0, below.0) refl, moved.1 ∙ gone.1)
