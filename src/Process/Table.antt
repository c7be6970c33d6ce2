-- ===== src/Process/Table.antt =====
-- The queues when the process table is set up by `init_pcb` of init/main.c.
use os_prj.Prelude.{ℕ, ◌<◌, ◌≡◌, refl, [], ◌∷◌, arith, pos}
use os_prj.Run.{ok}
use os_prj.Queue.{QueueId, sleep, waiting, queue_eq_self, put, Links, queue_init}
use os_prj.Queue.Represents.{Represents, Lists, IsFree, num_max_task, relink}
use os_prj.Queue.Push.{pushed, queue_push-snoc}
use os_prj.Kernel.{State, TaskStatus, not_exist}
use os_prj.Process.{boot_table, init_pcb}

-- `queue_init` empties one queue.
pub queue_init-nil :
    {l : Links} {L : Lists} (q : QueueId)
    → Represents l L
    → Represents (queue_init q l) (put L q [])
unfolding queue_init
queue_init-nil {l} q R =
    relink R q [] (queue_init q l) (ground (arith, queue_eq_self q)) (ground arith)
      (λ r a other h. (refl, refl)) R.idle tt (λ a h. cc) (λ r a other h. cc)

-- The contents after the boot: the shell waits in the last ready queue.
abbrev pub booted : Lists → Lists
booted L =
    let cleared =
      put
        (put (put (put (put L (QueueId.ready 0) []) (QueueId.ready 1) []) (QueueId.ready 2) [])
          sleep [])
        (waiting 1) [] in
    pushed (QueueId.ready 2) 1 cleared

module _ {L : Lists} (handle_int test_shell : ℕ) (s : State) (R : Represents s.links L)
    (free : IsFree 1 L) where
  -- After `init_pcb` the shell, with number 1, stands alone in the last ready queue, the other
  -- ready queues and the sleep queue are empty, `pcb[0]` is the current block and the blocks from
  -- `pcb[2]` on are free, if the queues were in order and `pcb[1]` in none.
  pub init_pcb-booted :
      (t : State) × (init_pcb handle_int test_shell s ≡ ok t)
      × Represents t.links (booted L)
      × (booted L (QueueId.ready 2) ≡ 1 ∷ [])
      × (t.current_running ≡ 0)
      × ((t.pcb 1).pid ≡ pos 1)
      × ((t.pcb 1).status ≡ TaskStatus.ready)
      × ((i : ℕ) → 1 < i → i < num_max_task → (t.pcb i).status ≡ not_exist)
      × (t.next_pid ≡ pos 2)
  unfolding init_pcb
  init_pcb-booted =
      let R₁ =
        queue_init-nil (QueueId.ready 2)
          (queue_init-nil (QueueId.ready 1) (queue_init-nil (QueueId.ready 0) R)) in
      let R₂ = queue_init-nil (waiting 1) (queue_init-nil sleep R₁) in
      let (l, e, R₃) =
        queue_push-snoc R₂ (QueueId.ready 2) 1 (λ r. ground (arith, free r)) (omega arith)
          (omega arith) in
      (
        record (boot_table handle_int test_shell s) {
          links = l;
          next_pid = pos 2;
          historical_num = 1;
        },
        rw e refl,
        R₃,
        refl,
        refl,
        refl,
        refl,
        λ i low high. ground arith,
        refl,
      )
