-- ===== src/Mailbox/Stack.antt =====
-- The loop of `mbox_send` of libs/mailbox.c, and what a process expects of the kernel's calls.
use os_prj.Prelude.{
  ℕ, zero, suc, ◌+◌, ◌≤◌, ◌<◌, ◌≡◌, ◌∙◌, refl, ap, Bool, true, false, arith, ◌==◌, ==_self, ltb,
  update, if◌then◌else◌,
}
use os_prj.Run.{ok}
use os_prj.Text.{memcpy}
use os_prj.Kernel.{State}
use os_prj.Mailbox.{Mailbox, Layout, World, Services, put_byte, send_loop}

-- A process that finds the lock of a box free, and that nobody disturbs while it has the lock: the calls
-- return, and change neither the memory nor the boxes.
pub record Undisturbed (os : Services) (lock : ℕ) : Type 1 where
  pub Ready : State → Type 0
  pub Held : State → Type 0
  pub acquires :
      (w : World)
      → Ready w.kernel
      → (k : State) × (os.mutex_lock_acquire lock w ≡ ok (record w { kernel = k })) × Held k
  pub signals :
      (c : ℕ) (w : World)
      → Held w.kernel
      → (k : State) × (os.condition_signal c w ≡ ok (record w { kernel = k })) × Held k
  pub releases :
      (w : World)
      → Held w.kernel
      → (k : State) × (os.mutex_lock_release lock w ≡ ok (record w { kernel = k })) × Ready k

-- Only the number of bytes in the box `i` has changed.
pub record Holds (i used : ℕ) (w t : World) : Type 0 where
  pub here : t.mboxs i ≡ record (w.mboxs i) { space_used = used }
  pub others : (j : ℕ) → (i == j) ≡ false → t.mboxs j ≡ w.mboxs j

pub Holds-trans :
    {i a b c : ℕ} (w v t : World) → Holds i a w v → Holds i b v t → b ≡ c → Holds i c w t
Holds-trans w v t H K e = record {
  here = K.here ∙ rw (H.here, e) refl;
  others = λ j o. K.others j o ∙ H.others j o;
}

module _ (layout : Layout) (os : Services) (i : ℕ) (U : Undisturbed os (layout.lock_on_box i)) where
  pub maybe_signals :
      (b : Bool) (c : ℕ) (w : World)
      → U.Held w.kernel
      → (k : State) × ((if b then os.condition_signal c w else ok w) ≡ ok (record w { kernel = k }))
        × U.Held k
  maybe_signals true c w h = U.signals c w h
  maybe_signals false c w h = (w.kernel, refl, h)

  -- One round of the loop of `mbox_send`.
  send_step :
      (n msg length sent : ℕ) (w : World)
      → ltb sent length ≡ true
      → ltb (w.mboxs i).space_used (w.mboxs i).capacity ≡ true
      → U.Held w.kernel
      → (v : World) × (send_loop layout os (suc n) i msg length sent w
          ≡ send_loop layout os n i msg length (sent + 1) v)
        × (v.memory
            ≡ update w.memory (layout.buffer_at i + (w.mboxs i).space_used) (w.memory (msg + sent)))
        × Holds i ((w.mboxs i).space_used + 1) w v
        × U.Held v.kernel
  unfolding send_loop
  send_step n msg length sent w more fits h =
      let u = put_byte layout os i (msg + sent) w in
      let (k, e, h') = maybe_signals ((u.mboxs i).space_used == 1) (layout.not_empty i) u h in
      (
        record u { kernel = k },
        rw (more, send_loop, fits, e) refl,
        refl,
        record { here = rw (==_self i) refl; others = λ j o. rw o refl },
        h',
      )

  -- The loop of `mbox_send` on the last `r` bytes, with room for them.
  pub send_loop-copies :
      (r n msg sent : ℕ) (w : World)
      → r < n
      → U.Held w.kernel
      → (w.mboxs i).space_used + r ≤ (w.mboxs i).capacity
      → (t : World) × (send_loop layout os n i msg (sent + r) sent w ≡ ok t)
        × (t.memory ≡ memcpy r (layout.buffer_at i + (w.mboxs i).space_used) (msg + sent) w.memory)
        × Holds i ((w.mboxs i).space_used + r) w t
        × U.Held t.kernel
  unfolding send_loop memcpy
  send_loop-copies r zero msg sent w fuel h room = absurd (omega arith)
  send_loop-copies zero (suc n) msg sent w fuel h room =
      let over : ltb sent (sent + 0) ≡ false = ground arith in
      let same : (w.mboxs i).space_used + 0 ≡ (w.mboxs i).space_used = omega arith in
      (w, rw (over, send_loop) refl, refl, record { here = rw same refl; others = λ j o. refl }, h)
  send_loop-copies (suc r) (suc n) msg sent w fuel h room =
      let used = (w.mboxs i).space_used in
      let (v, step, moved, H₁, h₁) =
        send_step n msg (sent + suc r) sent w (ground arith) (ground arith) h in
      let now : (v.mboxs i).space_used ≡ used + 1 = ap (λ (b : Mailbox). b.space_used) H₁.here in
      let limit : (v.mboxs i).capacity ≡ (w.mboxs i).capacity =
        ap (λ (b : Mailbox). b.capacity) H₁.here in
      let (t, run, copied, H₂, h₂) =
        send_loop-copies r n msg (sent + 1) v (omega arith) h₁ (rw (now, limit) (omega arith)) in
      let length : sent + suc r ≡ sent + 1 + r = omega arith in
      let to : layout.buffer_at i + (v.mboxs i).space_used ≡ layout.buffer_at i + used + 1 =
        rw now (omega arith) in
      let from : msg + (sent + 1) ≡ msg + sent + 1 = omega arith in
      (
        t,
        step ∙ ap (λ x. send_loop layout os n i msg x (sent + 1) v) length ∙ run,
        copied ∙ rw (to, from, moved) refl,
        Holds-trans w v t H₁ H₂ (rw now (omega arith)),
        h₂,
      )
