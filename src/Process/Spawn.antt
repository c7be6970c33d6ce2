-- ===== src/Process/Spawn.antt =====
-- `do_spawn` of init/main.c
use os_prj.Prelude.{
  ℕ, zero, suc, ◌+◌, ◌≤◌, ◌<◌, ◌≡◌, ◌∙◌, ap, refl, true, false, [], arith, pos, ◌+ℤ◌, ltb, ltb_ℤ,
  ltb_ℤ-incr, ltb_ℤ-incr_self, update, if◌then◌else◌, Bool-cases, inl, inr,
}
use os_prj.Run.{hang}
use os_prj.Queue.{QueueId, waiting, put}
use os_prj.Queue.Represents.{Represents, Lists, IsFree, num_max_task}
use os_prj.Queue.Push.{pushed, queue_push-snoc}
use os_prj.Kernel.{State, leave, exists, set_pcb}
use os_prj.Sched.{do_scheduler}
use os_prj.Process.{TaskInfo, new_pcb, kernel_sp, user_sp, find_spare, spawn_at, do_spawn}
use os_prj.Process.Table.{queue_init-nil}

find_spare-hit :
    (s : State) (n j i : ℕ)
    → j ≤ i
    → i < j + n
    → exists (s.pcb i).status ≡ false
    → ((k : ℕ) → j ≤ k → k < i → exists (s.pcb k).status ≡ true)
    → find_spare n j s ≡ i
unfolding find_spare
find_spare-hit s zero j i low high hit before = absurd (omega arith)
find_spare-hit s (suc n) j i low high hit before = elim (Bool-cases (exists (s.pcb j).status)) [
  | inl later ↦ rw later (
      find_spare-hit s n (j + 1) i (ground arith) (omega arith) hit
        λ k above below. before k (omega arith) below)
  | inr now ↦ let same : j ≡ i = ground (arith, before j) in rw now same
]

find_spare-miss :
    (s : State) (n j : ℕ)
    → ((k : ℕ) → j ≤ k → k < j + n → exists (s.pcb k).status ≡ true)
    → find_spare n j s ≡ j + n
unfolding find_spare
find_spare-miss s zero j all = omega arith
find_spare-miss s (suc n) j all =
    let rest = find_spare-miss s n (j + 1) λ k above below. all k (omega arith) (omega arith) in
    rw (all j (omega arith) (omega arith)) (omega (arith, rest))

-- All process numbers in the table are below the next one.
abbrev pub IsFresh : State → Type 0
IsFresh s = (i : ℕ) → i < num_max_task → ltb_ℤ (s.pcb i).pid s.next_pid ≡ true

module _ (handle_int : ℕ) (info : TaskInfo) (s : State) where
  -- `do_spawn` fills the first free block from `pcb[2]` on with the new process and the next
  -- process number, puts it at the end of the first ready queue with nobody waiting for it,
  -- changes no other block and calls the scheduler; all numbers in the table stay below the next
  -- one. The queues are in order, and the free block is in none.
  pub do_spawn-pushed :
      {L : Lists} (i : ℕ)
      → 2 ≤ i
      → i < num_max_task
      → exists (s.pcb i).status ≡ false
      → ((k : ℕ) → 2 ≤ k → k < i → exists (s.pcb k).status ≡ true)
      → Represents s.links L
      → IsFree i L
      → IsFresh s
      → (t : State) × (do_spawn handle_int info s ≡ do_scheduler leave t)
        × Represents t.links (pushed (QueueId.ready 0) i (put L (waiting i) []))
        × (t.pcb
            ≡ update s.pcb i (
                new_pcb
                  (s.pcb i)
                  handle_int
                  (kernel_sp s.historical_num)
                  (user_sp s.historical_num)
                  info.entry_point
                  info.type
                  s.next_pid
                  1))
        × (t.next_pid ≡ s.next_pid +ℤ pos 1)
        × IsFresh t
  unfolding do_spawn spawn_at
  do_spawn-pushed i low high spare before R free fresh =
      let found : find_spare 14 2 s ≡ i = find_spare-hit s 14 2 i low (omega arith) spare before in
      let (l, e, R') =
        queue_push-snoc (queue_init-nil (waiting i) R) (QueueId.ready 0) i
          (λ r. ground (arith, free r)) (omega arith) high in
      let within : ltb i num_max_task ≡ true = ground arith in
      (
        record (set_pcb i
            (new_pcb (s.pcb i) handle_int (kernel_sp s.historical_num) (user_sp s.historical_num)
              info.entry_point info.type s.next_pid 1)
            s) { links = l; next_pid = s.next_pid +ℤ pos 1; historical_num = s.historical_num + 1 },
        ap (λ (j : ℕ). if ltb j num_max_task then spawn_at j handle_int info s else hang) found
            ∙ rw (within, e) refl,
        R',
        refl,
        refl,
        λ k below. ground (
          arith,
          ltb_ℤ-incr (s.pcb k).pid s.next_pid (fresh k below),
          ltb_ℤ-incr_self s.next_pid,
        ),
      )

  -- With all blocks from `pcb[2]` on in use, `do_spawn` stops the kernel.
  pub do_spawn-hang :
      ((k : ℕ) → 2 ≤ k → k < num_max_task → exists (s.pcb k).status ≡ true)
      → do_spawn handle_int info s ≡ hang
  unfolding do_spawn
  do_spawn-hang all = rw (find_spare-miss s 14 2 λ k low high. all k low (omega arith)) refl
