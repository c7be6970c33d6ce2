-- ===== src/Mailbox/RoundTrip.antt =====
-- `mbox_send` and `mbox_recv` of libs/mailbox.c one after the other.
use os_prj.Prelude.{
  ℕ, ◌+◌, ◌-◌, ◌≤◌, ◌<◌, ◌≡◌, ◌⊎◌, ◌∙◌, refl, ap, true, false, arith, leb, ◌&&◌, if◌then◌else◌,
  Bool-cases, inl, inr,
}
use os_prj.Run.{ok, ◌>>=◌}
use os_prj.Text.{Memory, memcpy, strrev}
use os_prj.Text.Copy.{within, memcpy-copies, mirrored, strrev-mirrored}
use os_prj.Mailbox.{Mailbox, Layout, World, Services, mbox_send, recv_loop, mbox_recv, send_loop}
use os_prj.Mailbox.Stack.{Undisturbed, Holds, Holds-trans, send_loop-copies}
use os_prj.Mailbox.Receive.{popped, popped-mirrored, recv_loop-pops}

-- An area of `len` bytes from `p` on has nothing in common with the buffer.
abbrev pub IsApart : (p len buffer capacity : ℕ) → Type 0
IsApart p len buffer capacity = (p + len ≤ buffer) ⊎ (buffer + capacity ≤ p)

module _ (layout : Layout) (os : Services) (i rounds length : ℕ)
    (U : Undisturbed os (layout.lock_on_box i)) (enough : length < rounds) where
  -- `mbox_send` puts the message behind what the box has.
  pub mbox_send-copies :
      (msg : ℕ) (w : World)
      → U.Ready w.kernel
      → (w.mboxs i).space_used + length ≤ (w.mboxs i).capacity
      → (t : World) × (mbox_send layout os rounds i msg length w ≡ ok t)
        × (t.memory ≡ memcpy length (layout.buffer_at i + (w.mboxs i).space_used) msg w.memory)
        × Holds i ((w.mboxs i).space_used + length) w t
        × U.Ready t.kernel
  unfolding mbox_send
  mbox_send-copies msg w ready room =
      let (k, e, h) = U.acquires w ready in
      let (u, run, copied, H, h') =
        send_loop-copies layout os i U length rounds msg 0 (record w { kernel = k }) enough h
          room in
      let (k', e', ready') = U.releases u h' in
      let from : msg + 0 ≡ msg = omega arith in
      let all : length ≡ 0 + length = omega arith in
      (
        record u { kernel = k' },
        rw (e, ap (λ x. send_loop layout os rounds i msg x 0 (record w { kernel = k })) all ∙ run)
            e',
        copied
            ∙ ap (λ p. memcpy length (layout.buffer_at i + (w.mboxs i).space_used) p w.memory) from,
        record { here = H.here; others = H.others },
        ready',
      )

  -- The reversed bytes are those of the buffer.
  turned :
      {msg : ℕ} (m : Memory) (w : World) (a : ℕ)
      → m ≡ popped length (msg + 0) (layout.buffer_at i + (w.mboxs i).space_used) w.memory
      → length ≤ (w.mboxs i).space_used
      → 0 < msg + length
      → IsApart msg length (layout.buffer_at i) (w.mboxs i).space_used
      → mirrored msg (msg + length - 1) m a ≡ (
          if within msg length a
          then w.memory (layout.buffer_at i + ((w.mboxs i).space_used - length) + (a - msg))
          else w.memory a)
  turned {msg} m w a copied full some_byte apart =
      let src = layout.buffer_at i + (w.mboxs i).space_used in
      let to : msg + 0 ≡ msg = omega arith in
      let bytes : (x : ℕ)
          → m x ≡ (if within msg length x then w.memory (src - 1 - (x - msg)) else w.memory x) =
        λ x.
          ap (λ (f : Memory). f x) copied
          ∙ ap (λ p. popped length p src w.memory x) to
          ∙ popped-mirrored length msg src w.memory x (omega arith) (away apart) in
      elim (Bool-cases (within msg length a)) [
        | inl here ↦
            let back = msg + (msg + length - 1) - a in
            let low : leb msg a ≡ true = ground arith in
            let high : leb a (msg + length - 1) ≡ true = ground arith in
            let inside : within msg length back ≡ true = ground arith in
            let above : msg ≤ a = ground arith in
            let below : a < msg + length = ground arith in
            let at : src - 1 - (back - msg)
                ≡ layout.buffer_at i + ((w.mboxs i).space_used - length) + (a - msg) =
              omega arith in
            rw (here, low, high) (bytes back ∙ rw inside (ap w.memory at))
        | inr out ↦
            let outside : (leb msg a && leb a (msg + length - 1)) ≡ false = ground arith in
            rw (out, outside) (bytes a ∙ rw out refl)
      ]
    where
      away :
          IsApart msg length (layout.buffer_at i) (w.mboxs i).space_used
          → (msg + length ≤ layout.buffer_at i + (w.mboxs i).space_used - length)
            ⊎ (layout.buffer_at i + (w.mboxs i).space_used ≤ msg)
      away (inl before) = inl (omega arith)
      away (inr behind) = inr behind

  -- `mbox_recv` takes the last bytes of the box, in their order.
  pub mbox_recv-pops :
      (msg : ℕ) (w : World)
      → U.Ready w.kernel
      → length ≤ (w.mboxs i).space_used
      → 0 < msg + length
      → IsApart msg length (layout.buffer_at i) (w.mboxs i).space_used
      → (t : World) × (mbox_recv layout os rounds i msg length w ≡ ok t)
        × ((k : ℕ)
            → t.memory k ≡ (
                if within msg length k
                then w.memory (layout.buffer_at i + ((w.mboxs i).space_used - length) + (k - msg))
                else w.memory k))
        × Holds i ((w.mboxs i).space_used - length) w t
        × U.Ready t.kernel
  unfolding mbox_recv
  mbox_recv-pops msg w ready full some_byte apart =
      let (k, e, h) = U.acquires w ready in
      let (u, run, copied, H, h') =
        recv_loop-pops layout os i U length rounds msg 0 (record w { kernel = k }) enough h full in
      let (k', e', ready') = U.releases u h' in
      let all : length ≡ 0 + length = omega arith in
      let t : World = record u { memory = strrev msg length u.memory; kernel = k' } in
      (
        t,
        rw
            (
              e,
              ap (λ x. recv_loop layout os rounds i msg x 0 (record w { kernel = k })) all ∙ run,
              e',
            )
            refl,
        λ a.
            strrev-mirrored msg length u.memory a some_byte
            ∙ turned u.memory w a copied full some_byte apart,
        record { here = H.here; others = H.others },
        ready',
      )

  -- A message that fits into a mailbox comes out again as it was, whatever is in the box, and
  -- leaves there what was there: `mbox_recv` takes what `mbox_send` sent last. The process finds
  -- the lock of the box free and nobody disturbs it, the message or its address is not zero, and
  -- neither the message nor the place where it goes has bytes in common with the buffer.
  pub mbox_recv-mbox_send :
      (msg to : ℕ) (w : World)
      → U.Ready w.kernel
      → (w.mboxs i).space_used + length ≤ (w.mboxs i).capacity
      → 0 < to + length
      → IsApart msg length (layout.buffer_at i) (w.mboxs i).capacity
      → IsApart to length (layout.buffer_at i) (w.mboxs i).capacity
      → (t : World) × ((do
        u ← mbox_send layout os rounds i msg length w
        mbox_recv layout os rounds i to length u)
          ≡ ok t)
        × ((j : ℕ) → j < length → t.memory (to + j) ≡ w.memory (msg + j))
        × ((j : ℕ)
            → j < (w.mboxs i).space_used
            → t.memory (layout.buffer_at i + j) ≡ w.memory (layout.buffer_at i + j))
        × Holds i (w.mboxs i).space_used w t
        × U.Ready t.kernel
  mbox_recv-mbox_send msg to w ready room some_byte from_apart to_apart =
      let used = (w.mboxs i).space_used in
      let (u, sent, copied, H, ready₁) = mbox_send-copies msg w ready room in
      let now : (u.mboxs i).space_used ≡ used + length =
        ap (λ (b : Mailbox). b.space_used) H.here in
      let (t, got, bytes, K, ready₂) =
        mbox_recv-pops to u ready₁ (rw now (omega arith)) some_byte
          (rw now (within_buffer to_apart)) in
      let left : (u.mboxs i).space_used - length ≡ used = rw now (omega arith) in
      let before : (k : ℕ)
          → u.memory k ≡ (
              if within (layout.buffer_at i + used) length k
              then w.memory (msg + (k - (layout.buffer_at i + used)))
              else w.memory k) =
        λ k.
          ap (λ (f : Memory). f k) copied
          ∙ memcpy-copies length (layout.buffer_at i + used) msg w.memory (copies from_apart) k in
      (
        t,
        rw sent got,
        λ j low.
            let inside : within to length (to + j) ≡ true = ground arith in
            let at : layout.buffer_at i + ((u.mboxs i).space_used - length) + (to + j - to)
                ≡ layout.buffer_at i + used + j =
              rw left (omega arith) in
            let put : within (layout.buffer_at i + used) length (layout.buffer_at i + used + j)
                ≡ true =
              ground arith in
            let from : msg + (layout.buffer_at i + used + j - (layout.buffer_at i + used))
                ≡ msg + j =
              omega arith in
            bytes (to + j)
            ∙ rw (inside, at) (before (layout.buffer_at i + used + j) ∙ rw (put, from) refl),
        λ j low.
            let outside : within to length (layout.buffer_at i + j) ≡ false =
              outside_buffer j low to_apart in
            let old : within (layout.buffer_at i + used) length (layout.buffer_at i + j) ≡ false =
              ground arith in
            bytes (layout.buffer_at i + j)
            ∙ rw outside (before (layout.buffer_at i + j) ∙ rw old refl),
        Holds-trans w u t H K left,
        ready₂,
      )
    where
      within_buffer :
          IsApart to length (layout.buffer_at i) (w.mboxs i).capacity
          → IsApart to length (layout.buffer_at i) ((w.mboxs i).space_used + length)
      within_buffer (inl before) = inl before
      within_buffer (inr behind) = inr (omega arith)

      copies :
          IsApart msg length (layout.buffer_at i) (w.mboxs i).capacity
          → (layout.buffer_at i + (w.mboxs i).space_used ≤ msg)
            ⊎ (msg + length ≤ layout.buffer_at i + (w.mboxs i).space_used)
      copies (inl before) = inr (omega arith)
      copies (inr behind) = inl (omega arith)

      outside_buffer :
          (j : ℕ)
          → j < (w.mboxs i).space_used
          → IsApart to length (layout.buffer_at i) (w.mboxs i).capacity
          → within to length (layout.buffer_at i + j) ≡ false
      outside_buffer j low (inl before) = ground arith
      outside_buffer j low (inr behind) = ground arith
