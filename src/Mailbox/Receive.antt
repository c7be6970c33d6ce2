-- ===== src/Mailbox/Receive.antt =====
-- The loop of `mbox_recv` of libs/mailbox.c.
use os_prj.Prelude.{
  ℕ, zero, suc, ◌+◌, ◌-◌, ◌≤◌, ◌<◌, ◌≡◌, ◌⊎◌, ◌∙◌, refl, ap, true, false, arith, ◌==◌, ==_self,
  eq_of_==, ltb, update, if◌then◌else◌, Bool-cases, inl, inr,
}
use os_prj.Run.{ok}
use os_prj.Text.{Memory}
use os_prj.Text.Copy.{within}
use os_prj.Mailbox.{Mailbox, Layout, World, Services, take_byte, recv_loop}
use os_prj.Mailbox.Stack.{Undisturbed, Holds, Holds-trans, maybe_signals}

-- The bytes below `src` go to `dest` and up, the last one first.
abbrev pub popped : (r dest src : ℕ) → Memory → Memory
popped zero dest src m = m
popped (suc r) dest src m = popped r (dest + 1) (src - 1) (update m dest (m (src - 1)))

pub popped-mirrored :
    (r dest src : ℕ) (m : Memory) (k : ℕ)
    → r ≤ src
    → (dest + r ≤ src - r) ⊎ (src ≤ dest)
    → popped r dest src m k ≡ (if within dest r k then m (src - 1 - (k - dest)) else m k)
popped-mirrored zero dest src m k fits apart = ground arith
popped-mirrored (suc r) dest src m k fits apart =
    let m' = update m dest (m (src - 1)) in
    popped-mirrored r (dest + 1) (src - 1) m' k (omega arith) (next apart)
    ∙ elim (Bool-cases (within (dest + 1) r k)) [
      | inl rest ↦
          let above : dest + 1 ≤ k = ground arith in
          let below : k < dest + 1 + r = ground arith in
          let at : src - 1 - 1 - (k - (dest + 1)) ≡ src - 1 - (k - dest) = omega arith in
          let here : within dest (suc r) k ≡ true = ground arith in
          let other : (dest == src - 1 - (k - dest)) ≡ false = away above below apart in
          rw (rest, here, at, other) refl
      | inr out ↦ elim (Bool-cases (dest == k)) [
        | inl first ↦
            let same : dest ≡ k = eq_of_== dest k first in
            let here : within dest (suc r) k ≡ true = ground arith in
            rw (out, here, first) (ap m (omega arith))
        | inr other ↦
            let away : within dest (suc r) k ≡ false = ground (arith, ==_self k) in
            rw (out, away, other) refl
      ]
    ]
  where
    next :
        (dest + suc r ≤ src - suc r) ⊎ (src ≤ dest)
        → (dest + 1 + r ≤ src - 1 - r) ⊎ (src - 1 ≤ dest + 1)
    next (inl before) = inl (omega arith)
    next (inr behind) = inr (omega arith)

    away :
        dest + 1 ≤ k
        → k < dest + 1 + r
        → (dest + suc r ≤ src - suc r) ⊎ (src ≤ dest)
        → (dest == src - 1 - (k - dest)) ≡ false
    away above below (inl before) = ground arith
    away above below (inr behind) = ground arith

module _ (layout : Layout) (os : Services) (i : ℕ) (U : Undisturbed os (layout.lock_on_box i)) where
  -- One round of the loop of `mbox_recv`.
  recv_step :
      (n msg length got : ℕ) (w : World)
      → ltb got length ≡ true
      → ltb 0 (w.mboxs i).space_used ≡ true
      → U.Held w.kernel
      → (v : World) × (recv_loop layout os (suc n) i msg length got w
          ≡ recv_loop layout os n i msg length (got + 1) v)
        × (v.memory
            ≡ update w.memory
                (msg + got)
                (w.memory (layout.buffer_at i + ((w.mboxs i).space_used - 1))))
        × Holds i ((w.mboxs i).space_used - 1) w v
        × U.Held v.kernel
  unfolding recv_loop
  recv_step n msg length got w more some_byte h =
      let u = take_byte layout os i (msg + got) w in
      let (k, e, h') =
        maybe_signals layout os i U ((u.mboxs i).space_used + 1 == (u.mboxs i).capacity)
          (layout.not_full i) u h in
      (
        record u { kernel = k },
        rw (more, recv_loop, some_byte, e) refl,
        refl,
        record { here = rw (==_self i) refl; others = λ j o. rw o refl },
        h',
      )

  -- The loop of `mbox_recv` for the last `r` bytes, with as many in the box.
  pub recv_loop-pops :
      (r n msg got : ℕ) (w : World)
      → r < n
      → U.Held w.kernel
      → r ≤ (w.mboxs i).space_used
      → (t : World) × (recv_loop layout os n i msg (got + r) got w ≡ ok t)
        × (t.memory ≡ popped r (msg + got) (layout.buffer_at i + (w.mboxs i).space_used) w.memory)
        × Holds i ((w.mboxs i).space_used - r) w t
        × U.Held t.kernel
  unfolding recv_loop
  recv_loop-pops r zero msg got w fuel h enough = absurd (omega arith)
  recv_loop-pops zero (suc n) msg got w fuel h enough =
      let over : ltb got (got + 0) ≡ false = ground arith in
      let same : (w.mboxs i).space_used - 0 ≡ (w.mboxs i).space_used = omega arith in
      (w, rw (over, recv_loop) refl, refl, record { here = rw same refl; others = λ j o. refl }, h)
  recv_loop-pops (suc r) (suc n) msg got w fuel h enough =
      let used = (w.mboxs i).space_used in
      let (v, step, moved, H₁, h₁) =
        recv_step n msg (got + suc r) got w (ground arith) (ground arith) h in
      let now : (v.mboxs i).space_used ≡ used - 1 = ap (λ (b : Mailbox). b.space_used) H₁.here in
      let (t, run, copied, H₂, h₂) =
        recv_loop-pops r n msg (got + 1) v (omega arith) h₁ (rw now (omega arith)) in
      let length : got + suc r ≡ got + 1 + r = omega arith in
      let below : layout.buffer_at i + (v.mboxs i).space_used ≡ layout.buffer_at i + used - 1 =
        rw now (omega arith) in
      let to : msg + (got + 1) ≡ msg + got + 1 = omega arith in
      let from : layout.buffer_at i + (used - 1) ≡ layout.buffer_at i + used - 1 = omega arith in
      let left : (v.mboxs i).space_used - r ≡ used - suc r = rw now (omega arith) in
      (
        t,
        step ∙ ap (λ x. recv_loop layout os n i msg x (got + 1) v) length ∙ run,
        copied ∙ rw (to, below, moved, from) refl,
        Holds-trans w v t H₁ H₂ left,
        h₂,
      )
