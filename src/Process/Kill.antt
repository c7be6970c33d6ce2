-- ===== src/Process/Kill.antt =====
-- `do_kill` of init/main.c, up to the part that it shares with `do_exit`.
use os_prj.Prelude.{
  ℕ, zero, suc, ◌+◌, ◌<◌, ◌≡◌, ◌∙◌, refl, sym, ap, true, false, ◌||◌, none, some, List, [], ◌∷◌,
  ◌++◌, arith, has, length, ℤ, negsuc, ◌==ℤ◌, ==ℤ_iff, ==_self, length-append, Distinct,
  Distinct-middle, has-append, ◌≤◌,
}
use mathlib.Core.List.{append_assoc}
use os_prj.Run.{Run, ok, ok-inj, returned}
use os_prj.Queue.{
  QueueId, Ptr, Links, sleep, waiting, of_mutex, put, queue_remove, set_next, set_prev,
}
use os_prj.Queue.Chain.{first}
use os_prj.Queue.Dequeue.{is_nil}
use os_prj.Queue.Remove.{queue_remove-ends}
use os_prj.Queue.Represents.{
  Represents, Lists, IsFree-append, num_max_task, next-append, head-eq-first, length-le,
}
use os_prj.Kernel.{State, Pcb, TaskStatus, blocked, sleeping, leave, lookup_pid}
use os_prj.Kernel.Lookup.{lookup_pid-pid, lookup_pid-cong}
use os_prj.Sched.{do_scheduler, ready_slot}
use os_prj.Locking.Mutex.Owned.{IsOwned}
use os_prj.Process.{max_mutex_own, remove_pid, remove_from, leave_block, leave_queues, do_kill}
use os_prj.Process.Locks.{CanRelease}
use os_prj.Process.End.{IsEnded, end_process-IsEnded}

-- A block that `queue_remove` took out leads nowhere.
removed_from : ℕ → Ptr → Links → Run (Ptr × Links)
removed_from i next l = ok (next, set_next i none (set_prev i none l))

removed_from-next :
    (i : ℕ) (next : Ptr) (l l' : Links) (n : Ptr)
    → removed_from i next l ≡ ok (n, l')
    → l'.next i ≡ none
unfolding removed_from
removed_from-next i next l l' n run =
    let same : (next, set_next i none (set_prev i none l)) ≡ (n, l') = ok-inj run in
    ap (λ (p : Ptr × Links). p.1.next i) (sym same) ∙ rw (==_self i) refl

queue_remove-next :
    (q : QueueId) (i : ℕ) (l l' : Links) (n : Ptr)
    → queue_remove q i l ≡ ok (n, l')
    → l'.next i ≡ none
unfolding queue_remove removed_from
queue_remove-next q i l l' n run =
    let (l₁, _, run') = returned _ (removed_from i (l.next i)) (n, l') run in
    removed_from-next i (l.next i) l₁ l' n run'

remove_pid-none :
    (n : ℕ) (q : QueueId) (pid : ℤ) (pcb : ℕ → Pcb) (l : Links)
    → 0 < n
    → remove_pid n q pid pcb none l ≡ ok l
unfolding remove_pid
remove_pid-none zero q pid pcb l fuel = absurd (omega arith)
remove_pid-none (suc n) q pid pcb l fuel = refl

-- The loop goes past the blocks `xs`, removes `i`, and ends.
remove_pid-removes :
    (xs kept front ys : List ℕ) (i n : ℕ) (q : QueueId) (pid : ℤ) (pcb : ℕ → Pcb) (l : Links)
    {L : Lists}
    → Represents l L
    → kept ++ xs ≡ front
    → L q ≡ front ++ i ∷ ys
    → ((a : ℕ) → has a xs ≡ true → ((pcb a).pid ==ℤ pid) ≡ false)
    → ((pcb i).pid ==ℤ pid) ≡ true
    → (is_nil front || is_nil ys) ≡ true
    → length xs + 1 < n
    → (l' : Links) × (remove_pid n q pid pcb (first (xs ++ i ∷ ys)) l ≡ ok l')
      × Represents l' (put L q (front ++ ys))
unfolding remove_pid
remove_pid-removes xs kept front ys i zero q pid pcb l R split e miss hit ends fuel =
    absurd (omega arith)
remove_pid-removes [] kept front ys i (suc n) q pid pcb l R split e miss hit ends fuel =
    let (l', gone, R') = queue_remove-ends R q i front ys e ends in
    let last = queue_remove-next q i l l' (first ys) gone in
    (
      l',
      rw (hit, remove_pid, gone)
          (ap (λ p. remove_pid n q pid pcb p l') last
            ∙ remove_pid-none n q pid pcb l' (omega arith)),
      R',
    )
remove_pid-removes (x ∷ xs) kept front ys i (suc n) q pid pcb l R split e miss hit ends fuel =
    let here = e ∙ ap (λ f. f ++ i ∷ ys) (sym split) ∙ append_assoc kept (x ∷ xs) (i ∷ ys) in
    let next = next-append R q kept x (xs ++ i ∷ ys) here in
    let (l', run, R') =
      remove_pid-removes xs (kept ++ x ∷ []) front ys i n q pid pcb l R
        (append_assoc kept (x ∷ []) xs ∙ split) e (λ a h. miss a (ground (arith, h))) hit ends
        (omega arith) in
    (l', rw (miss x (ground (arith, ==_self x)), remove_pid, next) run, R')

-- The queue that the status of a process names.
pub data Names (s : State) (p : Pcb) : QueueId → Type 0 where
  is_ready :
      (k : ℕ)
      → p.status ≡ TaskStatus.ready
      → k < 3
      → p.priority ≡ k + 1
      → Names s p (QueueId.ready k)
  is_sleeping : p.status ≡ sleeping → Names s p sleep
  wants_lock : (m : ℕ) → p.status ≡ blocked → p.lock_waiting ≡ some m → Names s p (of_mutex m)
  awaits :
      (j : ℕ)
      → p.status ≡ blocked
      → p.lock_waiting ≡ none
      → (p.waiting_pcb ==ℤ negsuc 0) ≡ false
      → lookup_pid p.waiting_pcb s ≡ ok j
      → Names s p (waiting j)

leave_queues-Names :
    (pid : ℤ) (s : State) (p : Pcb) (q : QueueId)
    → Names s p q
    → leave_queues pid p s ≡ remove_from q pid s
unfolding leave_queues leave_block
leave_queues-Names pid s p q (Names.is_ready k at low prio) =
    let slot : ready_slot (k + 1) ≡ ok (QueueId.ready k) = ground arith in
    rw (at, leave_queues, prio, slot) refl
leave_queues-Names pid s p q (Names.is_sleeping at) = rw (at, leave_queues) refl
leave_queues-Names pid s p q (Names.wants_lock m at lock) =
    rw (at, leave_queues, lock, leave_block) refl
leave_queues-Names pid s p q (Names.awaits j at no_lock some_pid found) =
    rw (at, leave_queues, no_lock, leave_block, some_pid, found) refl

module _ (pid : ℤ) (s : State) {L : Lists} (i : ℕ) (q : QueueId) (xs ys : List ℕ) where
  -- A process at either end of the queue that its status names is taken out of it.
  pub leave_queues-removes :
      Represents s.links L
      → Names s (s.pcb i) q
      → L q ≡ xs ++ i ∷ ys
      → (is_nil xs || is_nil ys) ≡ true
      → ((s.pcb i).pid ==ℤ pid) ≡ true
      → ((a : ℕ) → a < num_max_task → ((s.pcb a).pid ==ℤ pid) ≡ true → a ≡ i)
      → (l : Links) × (leave_queues pid (s.pcb i) s ≡ ok (record s { links = l }))
        × Represents l (put L q (xs ++ ys))
  unfolding remove_from
  leave_queues-removes R named e ends mine only =
      let distinct : Distinct (xs ++ i ∷ ys) = rw e at (R.distinct q) in
      let before : (a : ℕ) → has a xs ≡ true → has a (L q) ≡ true =
        λ a h. rw e (ground (arith, has-append a xs (i ∷ ys), h)) in
      let short : length xs + 1 < 17 =
        (let le : length (xs ++ i ∷ ys) ≤ num_max_task = rw e at (length-le R q) in
          omega (arith, length-append xs (i ∷ ys), le)) in
      let (l, run, R') =
        remove_pid-removes xs [] xs ys i 17 q pid s.pcb s.links R refl e
          (λ a h.
            ground (arith, only a, R.inside q a (before a h), Distinct-middle xs i ys distinct, h))
          mine ends short in
      (
        l,
        leave_queues-Names pid s (s.pcb i) q named
            ∙ rw
                (ap (λ p. remove_pid 17 q pid s.pcb p s.links) (head-eq-first R q ∙ ap first e)
                  ∙ run)
                refl,
        R',
      )

  -- `do_kill` of a process at either end of the queue that its status names takes it out of that
  -- queue, and calls the scheduler when it is gone: it exists no more, its locks are free and it
  -- names none, all processes that waited for it are ready and wait no more, and tables, locks and
  -- queues are in order. The queues, tables and locks are in order, the search for the number
  -- finds the process, no other has the number, and it has room for five locks.
  pub do_kill-IsEnded :
      Represents s.links L
      → IsOwned s
      → lookup_pid pid s ≡ ok i
      → ((a : ℕ) → a < num_max_task → (s.pcb a).pid ≡ pid → a ≡ i)
      → Names s (s.pcb i) q
      → L q ≡ xs ++ i ∷ ys
      → (is_nil xs || is_nil ys) ≡ true
      → length (s.pcb i).lock_owned ≡ max_mutex_own
      → (t : State) × (L' : Lists) × (do_kill pid s ≡ do_scheduler leave t)
        × IsEnded i s (put L q (xs ++ ys)) t L'
  unfolding do_kill
  do_kill-IsEnded R owned found only named e ends five =
      let (mine, inside) = lookup_pid-pid pid s i found in
      let (l, run, R') =
        leave_queues-removes R named e ends ((==ℤ_iff (s.pcb i).pid pid).1 mine)
          (λ a high same. only a high ((==ℤ_iff (s.pcb a).pid pid).0 same)) in
      let u : State = record s { links = l } in
      let C : CanRelease i u (put L q (xs ++ ys)) = record {
        queues = R';
        owned = owned;
        found = ap (λ p. lookup_pid p u) mine ∙ lookup_pid-cong pid u s (λ a. refl) ∙ found;
        unique = λ a high same. only a high (same ∙ mine);
        inside = inside;
        free = IsFree-append R q xs i ys e;
      } in
      let (t, L', run', E) = end_process-IsEnded i u C five in
      (t, L', rw (found, run, run') refl, E)
