-- ===== src/Screen/Cursor.antt =====
-- Where the cursor of drivers/screen.c is after a character was written.
use os_prj.Prelude.{
  ℕ, zero, suc, ◌+◌, ◌-◌, ◌*◌, ◌<◌, ◌≡◌, ◌∙◌, refl, ap, true, false, arith, ◌==◌, ltb, leb, pos,
  ◌+ℤ◌, ◌-ℤ◌, ltb_ℤ, leb_ℤ, Bool-cases, inl, inr, List, incr_pos, decr_pos, length,
}
use os_prj.Run.{ok}
use os_prj.Text.{Memory}
use os_prj.Text.Compare.{IsString, strlen-length}
use os_prj.Screen.{
  Screen, screen_width, screen_height, index, set_new, put_char, new_line, type_char, clamp,
  clamp_row, screen_write_ch, write_loop, screen_write,
}

-- The cursor stands on the screen.
abbrev pub IsOn : Screen → Type 0
IsOn s =
    (x y : ℕ) × (s.cursor_x ≡ pos x)
    × (s.cursor_y ≡ pos y)
    × (x < screen_width)
    × (y < screen_height)

index-pos : (x y : ℕ) → index (pos x) (pos y) ≡ pos (y * 80 + x)
unfolding index ◌+ℤ◌
index-pos x y = ground arith

-- The tests on the row, for a cursor in a column of the screen.
clamp_row-IsOn :
    (s : Screen) (x y : ℕ)
    → s.cursor_x ≡ pos x
    → s.cursor_y ≡ pos y
    → x < screen_width
    → IsOn (clamp_row s)
unfolding clamp_row
clamp_row-IsOn s x y ex ey hx =
    let low : ltb_ℤ s.cursor_y (pos 0) ≡ false = rw ey (ground arith) in
    elim (Bool-cases (leb 30 y)) [
      | inl below ↦
          let test : leb_ℤ (pos 30) s.cursor_y ≡ true = rw ey (ground arith) in
          (0, 29, rw (low, test) refl, rw (low, test) refl, omega arith, omega arith)
      | inr inside ↦
          let test : leb_ℤ (pos 30) s.cursor_y ≡ false = rw ey (ground arith) in
          (x, y, rw (low, test) ex, rw (low, test) ey, hx, ground arith)
    ]

clamp-IsOn : (s : Screen) (x y : ℕ) → s.cursor_x ≡ pos x → s.cursor_y ≡ pos y → IsOn (clamp s)
unfolding clamp
clamp-IsOn s x y ex ey =
    let low : ltb_ℤ s.cursor_x (pos 0) ≡ false = rw ex (ground arith) in
    elim (Bool-cases (leb 80 x)) [
      | inl wide ↦
          let test : leb_ℤ (pos 80) s.cursor_x ≡ true = rw ex (ground arith) in
          let down : s.cursor_y +ℤ pos 1 ≡ pos (y + 1) = rw ey (incr_pos y) in
          rw (low, test)
            (clamp_row-IsOn (record s { cursor_y = s.cursor_y +ℤ pos 1; cursor_x = pos 0 }) 0
              (y + 1) refl down (omega arith))
      | inr inside ↦
          let test : leb_ℤ (pos 80) s.cursor_x ≡ false = rw ex (ground arith) in
          rw (low, test) (clamp_row-IsOn s x y ex ey (ground arith))
    ]

put_char-set_new :
    (ch x y : ℕ) (s : Screen)
    → s.cursor_x ≡ pos x
    → s.cursor_y ≡ pos y
    → x < screen_width
    → y < screen_height
    → put_char ch s ≡ ok (set_new (y * 80 + x) ch s)
unfolding put_char
put_char-set_new ch x y s ex ey hx hy =
    let on : ltb (y * 80 + x) 2400 ≡ true = ground arith in rw (ex, ey, index-pos x y, on) refl

-- What the tests on the character leave, for a cursor on the screen: the cursor has moved at most one
-- step.
type_char-step :
    (ch : ℕ) (s : Screen)
    → IsOn s
    → (t : Screen) × (x y : ℕ) × (type_char ch s ≡ ok t)
      × (t.cursor_x ≡ pos x)
      × (t.cursor_y ≡ pos y)
unfolding type_char
type_char-step ch s (x, y, ex, ey, hx, hy) = elim (Bool-cases (ch == 10)) [
  | inl line ↦ (new_line s, 0, y + 1, rw line refl, refl, rw ey (incr_pos y))
  | inr other ↦ elim (Bool-cases (ch == 8)) [
    | inl back ↦ elim (Bool-cases (ltb 0 x)) [
      | inl moved ↦
          let test : ltb_ℤ (pos 0) s.cursor_x ≡ true = rw ex (ground arith) in
          let one : x ≡ suc (x - 1) = ground arith in
          let left : s.cursor_x -ℤ pos 1 ≡ pos (x - 1) =
            rw ex (ap (λ (a : ℕ). pos a -ℤ pos 1) one ∙ decr_pos (x - 1)) in
          let u = record s { cursor_x = s.cursor_x -ℤ pos 1 } in
          (
            set_new (y * 80 + (x - 1)) 32 u,
            x - 1,
            y,
            rw (other, back, test) (put_char-set_new 32 (x - 1) y u left ey (omega arith) hy),
            left,
            ey,
          )
      | inr stays ↦
          let test : ltb_ℤ (pos 0) s.cursor_x ≡ false = rw ex (ground arith) in
          (s, x, y, rw (other, back, test) refl, ex, ey)
    ]
    | inr plain ↦ elim (Bool-cases (ch == 13)) [
      | inl enter ↦ (new_line s, 0, y + 1, rw (other, plain, enter) refl, refl, rw ey (incr_pos y))
      | inr printed ↦ (
        record (set_new (y * 80 + x) ch s) { cursor_x = s.cursor_x +ℤ pos 1 },
        x + 1,
        y,
        rw (other, plain, printed, put_char-set_new ch x y s ex ey hx hy) refl,
        rw ex (incr_pos x),
        ey,
      )
    ]
  ]
]

-- With the cursor on the screen, `screen_write_ch` writes inside the buffer, and the cursor stays on
-- the screen.
pub screen_write_ch-IsOn :
    (ch : ℕ) (s : Screen) → IsOn s → (t : Screen) × (screen_write_ch ch s ≡ ok t) × IsOn t
unfolding screen_write_ch
screen_write_ch-IsOn ch s on =
    let (t, x, y, e, ex, ey) = type_char-step ch s on in
    (clamp t, rw e refl, clamp-IsOn t x y ex ey)

write_loop-IsOn :
    (n i buff : ℕ) (m : Memory) (s : Screen)
    → IsOn s
    → (t : Screen) × (write_loop n i buff m s ≡ ok t) × IsOn t
unfolding write_loop
write_loop-IsOn zero i buff m s on = (s, refl, on)
write_loop-IsOn (suc n) i buff m s on =
    let (u, e, on_u) = screen_write_ch-IsOn (m (buff + i)) s on in
    let (t, run, on_t) = write_loop-IsOn n (i + 1) buff m u on_u in (t, rw (e, run) refl, on_t)

-- With the cursor on the screen, `screen_write` of any string ends, writes inside the buffer, and
-- leaves the cursor on the screen.
pub screen_write-IsOn :
    (str : List ℕ) (fuel buff : ℕ) (m : Memory) (s : Screen)
    → IsString m buff str
    → length str < fuel
    → IsOn s
    → (t : Screen) × (screen_write fuel buff m s ≡ ok t) × IsOn t
unfolding screen_write
screen_write-IsOn str fuel buff m s is_string enough on =
    let (t, run, on_t) = write_loop-IsOn (length str) 0 buff m s on in
    (t, rw (strlen-length str fuel buff m is_string enough, run) refl, on_t)
