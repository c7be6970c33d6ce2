-- ===== src/Tests/Mailboxes.antt =====
-- The theorems on libs/mailbox.c, tried on five boxes in a small memory.
use os_prj.Prelude.{ℕ, ◌+◌, ◌*◌, ◌<◌, ◌≡◌, refl, false, [], ◌∷◌, arith, ◌==◌, inl, inr, pos}
use os_prj.Run.{ok, ◌>>=◌}
use os_prj.Kernel.{State, blocked, lookup_pid, find_pid}
use os_prj.Text.Copy.{within}
use os_prj.Text.Compare.{IsString, streq-list_eq}
use os_prj.Mailbox.{Layout, World, mbox_send, mbox_recv, mbox_open}
use os_prj.Mailbox.Stack.{Holds}
use os_prj.Mailbox.RoundTrip.{mbox_recv-mbox_send}
use os_prj.Mailbox.Alone.{IsCalm, CanTake, alone, undisturbed}
use os_prj.Mailbox.Open.{mbox_open-new}
use os_prj.Tests.{no_links, no_lists, no-Represents, kernel}
use os_prj.Tests.Devices.{words, ho-IsString}

abbrev layout : Layout
layout = record {
  name_at = λ i. 1000 + 184 * i;
  buffer_at = λ i. 1030 + 184 * i;
  not_full = λ i. 2 * i;
  not_empty = λ i. 2 * i + 1;
  lock_on_box = λ i. i;
}

abbrev calm : State
calm = record (kernel no_links blocked) { num_waiting = λ c. pos 0 }

-- Each box has three bytes, and no user.
abbrev world : World
world = record {
  memory = words;
  mboxs = λ i. record { num_users = pos 0; space_used = 3; capacity = 100 };
  kernel = calm;
}

calm-IsCalm : IsCalm calm
unfolding lookup_pid find_pid
calm-IsCalm = record {
  contents = no_lists;
  queues = no-Represents;
  found = refl;
  nobody = λ c. refl;
}

mbox_recv-mbox_send_example :
    (t : World) × ((do
      u ← mbox_send layout alone 3 1 100 2 world
      mbox_recv layout alone 3 1 300 2 u)
      ≡ ok t)
    × ((j : ℕ) → j < 2 → t.memory (300 + j) ≡ words (100 + j))
    × ((j : ℕ) → j < 3 → t.memory (layout.buffer_at 1 + j) ≡ words (layout.buffer_at 1 + j))
    × Holds 1 3 world t
    × CanTake 1 t.kernel
mbox_recv-mbox_send_example =
    mbox_recv-mbox_send layout alone 1 3 2 (undisturbed 1) (omega arith) 100 300 world
      (calm-IsCalm, refl, refl) (omega arith) (omega arith) (inl (omega arith)) (inl (omega arith))

mbox_open-new_example :
    (t : World) × (mbox_open layout alone 5 200 world ≡ ok (0, t))
    × IsString t.memory 1000 (104 ∷ 111 ∷ [])
    × ((k : ℕ) → within 1000 3 k ≡ false → t.memory k ≡ words k)
    × ((t.mboxs 0).num_users ≡ pos 1)
    × ((k : ℕ) → (0 == k) ≡ false → t.mboxs k ≡ world.mboxs k)
mbox_open-new_example =
    mbox_open-new layout alone 5 200 world (104 ∷ 111 ∷ []) 0 ho-IsString (omega arith)
      (omega arith) (inr (omega arith))
      (λ k low.
        streq-list_eq [] (104 ∷ 111 ∷ []) 5 (1000 + 184 * k) 200 words (ground arith) ho-IsString
          (omega arith))
      (omega arith) refl (λ k low. absurd (omega arith))
