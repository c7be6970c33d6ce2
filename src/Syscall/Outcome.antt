-- ===== src/Syscall/Outcome.antt =====
-- Who goes on behind the kernel's functions that system calls run: the caller, or the process that
-- the scheduler picks.
use os_prj.Prelude.{
  ℕ, zero, suc, ◌≡◌, ◌∙◌, refl, sym, ap, true, false, Bool-cases, Option-cases, inl, inr, ℤ, pos,
  ==_self, arith, ◌==ℤ◌, ltb, ltb_ℤ, leb_ℤ, ◌+ℤ◌, ◌-◌, ◌+◌, if◌then◌else◌,
}
use os_prj.Run.{Run, ok, fault, hang, out_of_fuel, ◌>>=◌, returned, ok-inj}
use os_prj.Queue.{
  QueueId, queue_is_empty, queue_dequeue, queue_push, waiting, of_mutex, of_barrier, of_condition,
}
use os_prj.Queue.Represents.{num_max_task}
use os_prj.Kernel.{
  State, Continuation, leave, current, set_current, set_pcb, set_mutex, set_num_waiting, blocked,
  locked, unlocked, lookup_pid, printk, lock_not_acquired, process_table, exists,
}
use os_prj.Sched.{
  do_scheduler, do_sleep, do_block, do_unblock_one, do_unblock_all, unblock_loop, wake,
}
use os_prj.Locking.Mutex.{
  do_mutex_lock_init, do_mutex_lock_release, do_mutex_lock_acquire, take_lock, add_owned,
  drop_owned,
}
use os_prj.Locking.Semaphore.{do_semaphore_init, do_semaphore_up, do_semaphore_down, raise, lower}
use os_prj.Locking.Barrier.{do_barrier_init, do_barrier_wait, arrive}
use os_prj.Locking.Condition.{
  do_condition_init, do_condition_wait, do_condition_signal, do_condition_broadcast,
}
use os_prj.Process.{
  TaskInfo, do_spawn, spawn_at, do_wait, do_kill, do_exit, end_process, find_spare, leave_queues,
  process_show, show_from,
}

-- The code ends in the scheduler, and the caller goes on at the place `k`.
abbrev pub Switches : Continuation → Run State → Type 0
Switches k r = (before : Run State) × (r ≡ (before >>= do_scheduler k))

-- The code leaves the caller the current process, if it returns.
abbrev pub Stays : State → Run State → Type 0
Stays s r = r ≡ (do t ← r; ok (record t { current_running = s.current_running }))

pub now-Switches : (k : Continuation) (u : State) → Switches k (do_scheduler k u)
now-Switches k u = (ok u, refl)

pub after-Switches {ℓ} :
    {A : Type ℓ} (k : Continuation) (r : Run A) (f : A → Run State)
    → ((x : A) → Switches k (f x))
    → Switches k (r >>= f)
after-Switches k (ok x) f h = h x
after-Switches k fault f h = (fault, refl)
after-Switches k hang f h = (hang, refl)
after-Switches k out_of_fuel f h = (out_of_fuel, refl)

-- Changes behind code that returns.
pub both_changes {ℓ} :
    {A B C : Type ℓ} (r : Run A) (g : A → B) (f : B → C)
    → ((r >>= λ a. ok (g a)) >>= λ b. ok (f b)) ≡ (r >>= λ a. ok (f (g a)))
both_changes (ok a) g f = refl
both_changes fault g f = refl
both_changes hang g f = refl
both_changes out_of_fuel g f = refl

pub kept-Stays :
    (s : State) (r : Run State)
    → ((t : State) → r ≡ ok t → t.current_running ≡ s.current_running)
    → Stays s r
kept-Stays s (ok t) h = ap (λ i. ok (record t { current_running = i })) (h t refl)
kept-Stays s fault h = refl
kept-Stays s hang h = refl
kept-Stays s out_of_fuel h = refl

pub Stays-kept :
    (s t : State) (r : Run State) → Stays s r → r ≡ ok t → t.current_running ≡ s.current_running
Stays-kept s t r h e =
    let f = λ (u : State). ok (record u { current_running = s.current_running }) in
    let same : ok t ≡ f t = sym e ∙ h ∙ ap (λ x. x >>= f) e in
    ap (λ (u : State). u.current_running) (ok-inj same)

pub after-Stays {ℓ} :
    {A : Type ℓ} (s : State) (r : Run A) (f : A → Run State)
    → ((x : A) → Stays s (f x))
    → Stays s (r >>= f)
after-Stays s (ok x) f h = h x
after-Stays s fault f h = refl
after-Stays s hang f h = refl
after-Stays s out_of_fuel f h = refl

-- Code behind code of which the caller stays the current process.
pub then-Stays :
    (s : State) (r : Run State) (f : State → Run State)
    → Stays s r
    → ((x : State) → Stays x (f x))
    → Stays s (r >>= f)
then-Stays s r f h g = kept-Stays s (r >>= f) λ t e.
    let (u, e₁, e₂) = returned r f t e in Stays-kept u t (f u) (g u) e₂ ∙ Stays-kept s u r h e₁

pub do_sleep-Switches : (n : ℕ) (s : State) → Switches leave (do_sleep n s)
unfolding do_sleep
do_sleep-Switches n s = after-Switches leave _ _ λ l. now-Switches leave _

spawn_at-Switches : (i h : ℕ) (info : TaskInfo) (s : State) → Switches leave (spawn_at i h info s)
unfolding spawn_at
spawn_at-Switches i h info s = after-Switches leave _ _ λ l. now-Switches leave _

pub do_spawn-Switches : (h : ℕ) (info : TaskInfo) (s : State) → Switches leave (do_spawn h info s)
unfolding do_spawn
do_spawn-Switches h info s =
    let i = find_spare (num_max_task - 2) 2 s in
    elim (Bool-cases (ltb i num_max_task)) [
      | inl found ↦ rw found (spawn_at-Switches i h info s)
      | inr full ↦ rw full (hang, refl)
    ]

pub do_wait-Switches : (pid : ℤ) (s : State) → Switches leave (do_wait pid s)
unfolding do_wait
do_wait-Switches pid s =
    let v = set_current (record (current s) { status = blocked }) s in
    after-Switches leave (lookup_pid pid v) _ λ i.
      after-Switches leave (queue_push (waiting i) s.current_running s.links) _
        λ l. now-Switches leave _

pub do_kill-Switches : (pid : ℤ) (s : State) → Switches leave (do_kill pid s)
unfolding do_kill
do_kill-Switches pid s = after-Switches leave (lookup_pid pid s) _ λ i.
    after-Switches leave (leave_queues pid (s.pcb i) s) _
      λ u. after-Switches leave (end_process i u) _ λ t. now-Switches leave t

pub do_exit-Switches : (s : State) → Switches leave (do_exit s)
unfolding do_exit
do_exit-Switches s = (end_process s.current_running s, refl)

pub do_semaphore_up-Switches : (k : ℕ) (s : State) → Switches leave (do_semaphore_up k s)
unfolding do_semaphore_up
do_semaphore_up-Switches k s = (raise k s, refl)

pub do_semaphore_down-Switches : (k : ℕ) (s : State) → Switches leave (do_semaphore_down k s)
unfolding do_semaphore_down
do_semaphore_down-Switches k s = (lower k s, refl)

pub do_condition_wait-Switches :
    (m k : ℕ) (s : State) → Switches (Continuation.acquire m) (do_condition_wait m k s)
unfolding do_condition_wait
do_condition_wait-Switches m k s =
    let goal = Continuation.acquire m in
    let v = if (s.mutex m).owner ==ℤ (current s).pid then s else printk lock_not_acquired s in
    after-Switches goal (do_block (of_condition k) (set_num_waiting k (v.num_waiting k +ℤ pos 1) v))
      _ λ u. after-Switches goal (do_mutex_lock_release m u) _ λ t. now-Switches goal t

pub locked-Switches :
    (m : ℕ) (s : State)
    → (s.mutex m).status ≡ locked
    → Switches (Continuation.acquire m) (do_mutex_lock_acquire m s)
unfolding do_mutex_lock_acquire
locked-Switches m s taken =
    let goal = Continuation.acquire m in
    rw (taken, do_mutex_lock_acquire)
      (after-Switches goal (do_block (of_mutex m) s) _ λ u. now-Switches goal _)

take_lock-Stays : (m : ℕ) (s : State) → Stays s (take_lock m s)
unfolding take_lock
take_lock-Stays m s = elim (Option-cases (add_owned m (current s).lock_owned)) [
  | inl none_left ↦ rw (none_left, take_lock) refl
  | inr (owned, e) ↦ rw (e, take_lock) refl
]

pub unlocked-Stays :
    (m : ℕ) (s : State) → (s.mutex m).status ≡ unlocked → Stays s (do_mutex_lock_acquire m s)
unfolding do_mutex_lock_acquire
unlocked-Stays m s free = rw (free, do_mutex_lock_acquire) (take_lock-Stays m s)

pub do_block-Stays : (q : QueueId) (s : State) → Stays s (do_block q s)
unfolding do_block
do_block-Stays q s = after-Stays s (queue_push q s.current_running s.links) _ λ l. refl

pub do_unblock_one-Stays : (q : QueueId) (s : State) → Stays s (do_unblock_one q s)
unfolding do_unblock_one
do_unblock_one-Stays q s =
    after-Stays s (queue_dequeue q s.links) _
      λ p. after-Stays s (queue_push (QueueId.ready 0) p.0 p.1) _ λ l. refl

unblock_loop-Stays : (n : ℕ) (q : QueueId) (s : State) → Stays s (unblock_loop n q s)
unfolding unblock_loop
unblock_loop-Stays zero q s = refl
unblock_loop-Stays (suc n) q s = elim (Bool-cases (queue_is_empty q s.links)) [
  | inl empty ↦ rw (empty, unblock_loop) refl
  | inr more ↦
      rw (more, unblock_loop)
        (after-Stays s (queue_dequeue q s.links) _ λ p.
          after-Stays s (queue_push (QueueId.ready 0) p.0 p.1) _
            λ l. unblock_loop-Stays n q (record (set_pcb p.0 (wake (s.pcb p.0)) s) { links = l }))
]

pub do_unblock_all-Stays : (q : QueueId) (s : State) → Stays s (do_unblock_all q s)
unfolding do_unblock_all
do_unblock_all-Stays q s = unblock_loop-Stays (num_max_task + 1) q s

pub do_mutex_lock_release-Stays : (m : ℕ) (s : State) → Stays s (do_mutex_lock_release m s)
unfolding do_mutex_lock_release
do_mutex_lock_release-Stays m s = after-Stays s (lookup_pid (s.mutex m).owner s) _ λ j.
    let p = record (s.pcb j) { lock_owned = drop_owned m (s.pcb j).lock_owned } in
    let v = set_pcb j p s in
    let v = set_mutex m (record (v.mutex m) { status = unlocked }) v in
    then-Stays s (do_unblock_all (of_mutex m) v) _ (do_unblock_all-Stays (of_mutex m) v) λ t. refl

pub do_condition_signal-Stays : (k : ℕ) (s : State) → Stays s (do_condition_signal k s)
unfolding do_condition_signal
do_condition_signal-Stays k s = elim (Bool-cases (ltb_ℤ (pos 0) (s.num_waiting k))) [
  | inl some_wait ↦ rw some_wait (
      then-Stays s (do_unblock_one (of_condition k) s) _ (do_unblock_one-Stays (of_condition k) s)
        λ t. refl)
  | inr nobody ↦ rw nobody refl
]

pub do_condition_broadcast-Stays : (k : ℕ) (s : State) → Stays s (do_condition_broadcast k s)
unfolding do_condition_broadcast
do_condition_broadcast-Stays k s = elim (Bool-cases (ltb_ℤ (pos 0) (s.num_waiting k))) [
  | inl some_wait ↦ rw some_wait (
      then-Stays s (do_unblock_all (of_condition k) s) _ (do_unblock_all-Stays (of_condition k) s)
        λ t. refl)
  | inr nobody ↦ rw nobody refl
]

show_from-runs :
    (n i num : ℕ) (s : State) → (show_from n i num s).current_running ≡ s.current_running
unfolding show_from
show_from-runs zero i num s = refl
show_from-runs (suc n) i num s = elim (Bool-cases (exists (s.pcb i).status)) [
  | inl there ↦ rw (there, show_from) (show_from-runs n (i + 1) (num + 1) _)
  | inr gone ↦ rw (gone, show_from) (show_from-runs n (i + 1) num s)
]

pub process_show-Stays : (s : State) → Stays s (ok (process_show s))
unfolding process_show
process_show-Stays s = kept-Stays s (ok (process_show s)) λ t e.
    ap (λ (u : State). u.current_running) (sym (ok-inj e))
    ∙ show_from-runs (num_max_task - 1) 1 0 (printk process_table s)

module _ (k : ℕ) (s : State) where
  -- How many come, and what the barrier makes of them.
  abbrev come : ℤ
  come = (s.barrier k).num_now +ℤ pos 1

  abbrev goal : ℤ
  goal = (s.barrier k).num_expected

  pub few-Switches : leb_ℤ come goal ≡ true → Switches leave (do_barrier_wait k s)
  unfolding do_barrier_wait
  few-Switches h = elim (Bool-cases (ltb_ℤ come goal)) [
    | inl below ↦
        rw (==_self k, below)
          (after-Switches leave (do_block (of_barrier k) (arrive k s)) _ λ u. now-Switches leave u)
    | inr all ↦
        let same : (come ==ℤ goal) ≡ true = ground arith in
        rw (==_self k, all, same)
          (after-Switches leave (do_unblock_all (of_barrier k) (arrive k s)) _
            λ u. now-Switches leave _)
  ]

  pub many-Stays : leb_ℤ come goal ≡ false → Stays s (do_barrier_wait k s)
  unfolding do_barrier_wait
  many-Stays h =
      let below : ltb_ℤ come goal ≡ false = ground arith in
      let other : (come ==ℤ goal) ≡ false = ground arith in rw (==_self k, below, other) refl

pub do_semaphore_init-Stays : (k : ℕ) (v : ℤ) (s : State) → Stays s (ok (do_semaphore_init k v s))
unfolding do_semaphore_init
do_semaphore_init-Stays k v s = elim (Bool-cases (leb_ℤ (pos 0) v)) [
  | inl good ↦ rw good refl
  | inr bad ↦ rw bad refl
]

pub do_mutex_lock_init-Stays : (k : ℕ) (s : State) → Stays s (ok (do_mutex_lock_init k s))
unfolding do_mutex_lock_init
do_mutex_lock_init-Stays k s = refl

pub do_barrier_init-Stays : (k : ℕ) (v : ℤ) (s : State) → Stays s (ok (do_barrier_init k v s))
unfolding do_barrier_init
do_barrier_init-Stays k v s = refl

pub do_condition_init-Stays : (k : ℕ) (s : State) → Stays s (ok (do_condition_init k s))
unfolding do_condition_init
do_condition_init-Stays k s = refl
