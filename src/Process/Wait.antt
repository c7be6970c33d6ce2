-- ===== src/Process/Wait.antt =====
-- `do_wait` of init/main.c
use os_prj.Prelude.{ℕ, ◌<◌, ◌≡◌, refl, arith, ℤ, ==_self, update}
use os_prj.Run.{ok, fault}
use os_prj.Queue.{waiting}
use os_prj.Queue.Represents.{Represents, Lists, IsFree, num_max_task}
use os_prj.Queue.Push.{pushed, queue_push-snoc}
use os_prj.Kernel.{State, leave, blocked, current, set_current, lookup_pid}
use os_prj.Kernel.Lookup.{lookup_pid-cong}
use os_prj.Sched.{do_scheduler}
use os_prj.Process.{do_wait}

module _ (pid : ℤ) (s : State) where
  looks_up :
      lookup_pid pid (set_current (record (current s) { status = blocked }) s) ≡ lookup_pid pid s
  looks_up = lookup_pid-cong pid _ s λ i. ground arith

  -- `do_wait` blocks the caller behind those that wait for the process found, whatever the status
  -- of that process is, notes its number, and calls the scheduler; no other block changes. The
  -- queues are in order, the search finds a block, and the caller is a process of the table in no
  -- queue.
  pub do_wait-pushed :
      {L : Lists} (i : ℕ)
      → lookup_pid pid s ≡ ok i
      → Represents s.links L
      → IsFree s.current_running L
      → 0 < s.current_running
      → s.current_running < num_max_task
      → (t : State) × (do_wait pid s ≡ do_scheduler leave t)
        × Represents t.links (pushed (waiting i) s.current_running L)
        × ((a : ℕ)
            → t.pcb a
              ≡ update s.pcb s.current_running
                  (record (current s) { status = blocked; waiting_pcb = pid })
                  a)
  unfolding do_wait
  do_wait-pushed i found R free low high =
      let (l, e, R') = queue_push-snoc R (waiting i) s.current_running free low high in
      let b = record (set_current (record (current s) { status = blocked }) s) { links = l } in
      (
        set_current (record (current b) { waiting_pcb = pid }) b,
        rw (looks_up, found, e) refl,
        R',
        λ a. ground (arith, ==_self s.current_running),
      )

  -- Waiting for a number that no block has reads behind the table.
  pub do_wait-fault : lookup_pid pid s ≡ fault → do_wait pid s ≡ fault
  unfolding do_wait
  do_wait-fault missing = rw (looks_up, missing) refl
