-- ===== src/Mailbox.antt =====
-- libs/mailbox.c and libs/mailbox.h: mailboxes of user programs. The calls of the kernel are an
-- interface, `Services`: a call that waits lets other processes run, and what they do to the mailboxes
-- is no part of this file. The loops of `mbox_send` and `mbox_recv` run on fuel, a round for each
-- byte and each wait; those that compare names on fuel, a round for each byte of a name. What a program
-- prints before it stops is not modelled.
pub mod Stack
pub mod Receive
pub mod RoundTrip
pub mod Alone
pub mod Open
use os_prj.Prelude.{
  ℕ, zero, suc, ◌+◌, ◌-◌, ◌==◌, ltb, true, false, ℤ, pos, ◌+ℤ◌, ◌-ℤ◌, ◌==ℤ◌, update, if◌then◌else◌,
}
use os_prj.Run.{Run, ok, fault, hang, out_of_fuel, ◌>>=◌}
use os_prj.Text.{Memory, strlen, strcpy, streq, strrev}
use os_prj.Kernel.{State}

-- `MAX_NUM_BOX`
abbrev pub max_num_box : ℕ
max_num_box = 5

-- `MAIL_BOX_NAME_LENGTH`
abbrev pub mail_box_name_length : ℕ
mail_box_name_length = 30

-- `MAIL_CAPACITY`
abbrev pub mail_capacity : ℕ
mail_capacity = 100

-- `mailbox_t`, but for the bytes, which lie in memory, and the objects of the kernel
pub record Mailbox : Type 0 where
  pub num_users : ℤ
  pub space_used : ℕ
  pub capacity : ℕ

-- Where the compiler puts `mboxs[i].name` and `mboxs[i].buffer`, and which objects of the kernel
-- `mboxs[i]` has.
pub record Layout : Type 0 where
  pub name_at : ℕ → ℕ
  pub buffer_at : ℕ → ℕ
  pub not_full : ℕ → ℕ
  pub not_empty : ℕ → ℕ
  pub lock_on_box : ℕ → ℕ

-- `mboxs`, the memory of the programs, and the kernel
pub record World : Type 0 where
  pub memory : Memory
  pub mboxs : ℕ → Mailbox
  pub kernel : State

abbrev pub set_box : ℕ → Mailbox → World → World
set_box i b w = record w { mboxs = update w.mboxs i b }

-- The calls of the kernel, until the caller goes on.
pub record Services : Type 0 where
  pub mutex_lock_init : ℕ → World → Run World
  pub mutex_lock_acquire : ℕ → World → Run World
  pub mutex_lock_release : ℕ → World → Run World
  pub condition_init : ℕ → World → Run World
  pub condition_wait : (lock condition : ℕ) → World → Run World
  pub condition_signal : ℕ → World → Run World

-- `for (j = 0; j < MAIL_CAPACITY; j++) buffer[j] = '0';`, with the rounds left.
unfoldable pub blank_loop : ℕ → (buffer j : ℕ) → Memory → Memory
blank_loop zero buffer j m = m
blank_loop (suc n) buffer j m = blank_loop n buffer (j + 1) (update m (buffer + j) 48)

module _ (layout : Layout) (os : Services) where
  -- The part that `mbox_init` and `mbox_close` share: the name, the buffer and the objects.
  unfoldable pub reset_box : ℕ → World → Run World
  reset_box i w = do
    let m = update w.memory (layout.name_at i) 48
    let w = record w { memory = blank_loop mail_capacity (layout.buffer_at i) 0 m }
    w ← os.condition_init (layout.not_full i) w
    w ← os.condition_init (layout.not_empty i) w
    os.mutex_lock_init (layout.lock_on_box i) w

  -- The loop of `mbox_init`, with the rounds left.
  unfoldable pub init_loop : ℕ → ℕ → World → Run World
  init_loop zero i w = ok w
  init_loop (suc n) i w = do
    w ← reset_box i w
    init_loop n (i + 1)
        (set_box i (record { num_users = pos 0; space_used = 0; capacity = mail_capacity }) w)

  unfoldable pub mbox_init : World → Run World
  mbox_init w = init_loop max_num_box 0 w

  -- `for (i = 0; i < MAX_NUM_BOX; i++) if (streq(mboxs[i].name, name)) break;`, with the rounds left
  unfoldable pub find_name : (rounds : ℕ) → ℕ → ℕ → (name : ℕ) → Memory → Run ℕ
  find_name rounds zero i name m = ok i
  find_name rounds (suc n) i name m = do
    equal ← streq rounds (layout.name_at i) name m
    elim (equal ==ℤ pos 0) [ true ↦ find_name rounds n (i + 1) name m | false ↦ ok i ]

  -- `for (i = 0; i < MAX_NUM_BOX; i++) if (mboxs[i].num_users == 0)`, with the rounds left
  unfoldable pub find_unused : ℕ → ℕ → World → ℕ
  find_unused zero i w = i
  find_unused (suc n) i w =
      let rest = find_unused n (i + 1) w in if (w.mboxs i).num_users ==ℤ pos 0 then i else rest

  -- `(mboxs + i)->num_users++`
  abbrev pub join : ℕ → World → World
  join i w = set_box i (record (w.mboxs i) { num_users = (w.mboxs i).num_users +ℤ pos 1 }) w

  -- The box gets the name, and one more user. `strcpy` does not look at the length of the array: a
  -- name that does not fit, with its zero byte, is written over the rest of the box and the boxes
  -- behind it, which is a `fault`.
  unfoldable pub name_box : (rounds name i : ℕ) → World → Run (ℕ × World)
  name_box rounds name i w = do
    l ← strlen rounds name w.memory
    if ltb l mail_box_name_length
        then (do
          m ← strcpy rounds (layout.name_at i) name w.memory
          ok (i, join i (record w { memory = m })))
        else fault

  -- Without a box of that name the first box that nobody uses gets the name.
  unfoldable pub open_unused : (rounds name : ℕ) → World → Run (ℕ × World)
  open_unused rounds name w =
      let i = find_unused max_num_box 0 w in
      if ltb i max_num_box then name_box rounds name i w else hang

  -- The number of the box, and the world. When no box has the name, the test after the loop reads
  -- the name of `mboxs[5]`, behind the array.
  unfoldable pub mbox_open : (rounds name : ℕ) → World → Run (ℕ × World)
  mbox_open rounds name w = do
    i ← find_name rounds max_num_box 0 name w.memory
    equal ← streq rounds (layout.name_at i) name w.memory
    elim (equal ==ℤ pos 0) [
      | true ↦ open_unused rounds name w
      | false ↦ if ltb i max_num_box then ok (i, join i w) else fault
    ]

  unfoldable pub mbox_close : ℕ → World → Run World
  mbox_close i w =
      let w = set_box i (record (w.mboxs i) { num_users = (w.mboxs i).num_users -ℤ pos 1 }) w in
      if (w.mboxs i).num_users ==ℤ pos 0
      then (do
        w ← reset_box i w
        ok (set_box i (record (w.mboxs i) { space_used = 0; capacity = mail_capacity }) w))
      else ok w

  -- One byte goes into the buffer.
  abbrev pub put_byte : (i from : ℕ) → World → World
  put_byte i from w =
      let b = w.mboxs i in
      set_box i (record b { space_used = b.space_used + 1 })
        (record w { memory = update w.memory (layout.buffer_at i + b.space_used) (w.memory from) })

  -- One byte comes out of the buffer.
  abbrev pub take_byte : (i to : ℕ) → World → World
  take_byte i to w =
      let b = w.mboxs i in
      set_box i (record b { space_used = b.space_used - 1 })
        (record w {
          memory = update w.memory to (w.memory (layout.buffer_at i + (b.space_used - 1)));
        })

  unfoldable pub send_loop : ℕ → (i msg msg_length len_sent : ℕ) → World → Run World
  send_loop zero i msg msg_length len_sent w = out_of_fuel
  send_loop (suc n) i msg msg_length len_sent w = elim (ltb len_sent msg_length) [
    | false ↦ ok w
    | true ↦ elim (ltb (w.mboxs i).space_used (w.mboxs i).capacity) [
      | true ↦ do
        let w = put_byte i (msg + len_sent) w
        w ← if (w.mboxs i).space_used == 1 then os.condition_signal (layout.not_empty i) w else ok w
        send_loop n i msg msg_length (len_sent + 1) w
      | false ↦ elim ((w.mboxs i).space_used == (w.mboxs i).capacity) [
        | true ↦ do
          w ← os.condition_wait (layout.lock_on_box i) (layout.not_full i) w
          send_loop n i msg msg_length len_sent w
        | false ↦ hang
      ]
    ]
  ]

  unfoldable pub mbox_send : (rounds : ℕ) → (i msg msg_length : ℕ) → World → Run World
  mbox_send rounds i msg msg_length w = do
    w ← os.mutex_lock_acquire (layout.lock_on_box i) w
    w ← send_loop rounds i msg msg_length 0 w
    os.mutex_lock_release (layout.lock_on_box i) w

  -- `space_used` is never negative, so the last branch of the loop, which stops the program, is never taken.
  unfoldable pub recv_loop : ℕ → (i msg msg_length len_recv : ℕ) → World → Run World
  recv_loop zero i msg msg_length len_recv w = out_of_fuel
  recv_loop (suc n) i msg msg_length len_recv w = elim (ltb len_recv msg_length) [
    | false ↦ ok w
    | true ↦ elim (ltb 0 (w.mboxs i).space_used) [
      | true ↦ do
        let w = take_byte i (msg + len_recv) w
        w ←
            if (w.mboxs i).space_used + 1 == (w.mboxs i).capacity
            then os.condition_signal (layout.not_full i) w
            else ok w
        recv_loop n i msg msg_length (len_recv + 1) w
      | false ↦ do
        w ← os.condition_wait (layout.lock_on_box i) (layout.not_empty i) w
        recv_loop n i msg msg_length len_recv w
    ]
  ]

  unfoldable pub mbox_recv : (rounds : ℕ) → (i msg msg_length : ℕ) → World → Run World
  mbox_recv rounds i msg msg_length w = do
    w ← os.mutex_lock_acquire (layout.lock_on_box i) w
    w ← recv_loop rounds i msg msg_length 0 w
    w ← os.mutex_lock_release (layout.lock_on_box i) w
    ok (record w { memory = strrev msg msg_length w.memory })
