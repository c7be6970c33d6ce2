-- ===== src/Process/End.antt =====
-- `do_exit` of init/main.c, and the part that it shares with `do_kill`.
use os_prj.Prelude.{
  ℕ, zero, suc, ◌<◌, ◌≡◌, ◌∙◌, refl, sym, ap, true, false, List, [], ◌∷◌, ◌++◌, arith, has, length,
  eq_of_==, negsuc, ◌==◌, ==_self, update, if◌then◌else◌,
}
use mathlib.Core.List.{append_assoc}
use os_prj.Run.{ok}
use os_prj.Queue.{QueueId, waiting}
use os_prj.Queue.Chain.{first}
use os_prj.Queue.Represents.{Represents, Lists, next-append, head-eq-first, length-le}
use os_prj.Kernel.{Pcb, State, TaskStatus, not_exist, leave, set_pcb}
use os_prj.Kernel.Lookup.{lookup_pid-cong}
use os_prj.Sched.{do_scheduler}
use os_prj.Sched.Unblock.{
  drained, wake_all, wake_all-status, drained-IsFree, do_unblock_all-drained,
}
use os_prj.Locking.Mutex.Owned.{holds, wake_all-lock_owned}
use os_prj.Locking.Mutex.Release.{free_lock}
use os_prj.Process.{max_mutex_own, forget_wait, release_locks, end_process, do_exit}
use os_prj.Process.Locks.{CanRelease, release_locks-frees}

-- The table after the processes of a queue forgot what they wait for.
abbrev forgotten : List ℕ → (ℕ → Pcb) → ℕ → Pcb
forgotten [] pcb = pcb
forgotten (x ∷ xs) pcb = forgotten xs (update pcb x (record (pcb x) { waiting_pcb = negsuc 0 }))

forgotten-same :
    (xs : List ℕ) (pcb : ℕ → Pcb) (a : ℕ)
    → ((forgotten xs pcb a).pid ≡ (pcb a).pid)
      × ((forgotten xs pcb a).lock_owned ≡ (pcb a).lock_owned)
      × ((forgotten xs pcb a).status ≡ (pcb a).status)
      × ((forgotten xs pcb a).waiting_pcb ≡ (if has a xs then negsuc 0 else (pcb a).waiting_pcb))
forgotten-same [] pcb a = (refl, refl, refl, refl)
forgotten-same (x ∷ xs) pcb a = ground (
  arith,
  forgotten-same xs (update pcb x (record (pcb x) { waiting_pcb = negsuc 0 })) a,
  eq_of_== x a,
  eq_of_== a x,
)

-- The loop walks the whole queue.
forget_wait-forgotten :
    (xs kept : List ℕ) (n : ℕ) (q : QueueId) (s : State) {L : Lists}
    → Represents s.links L
    → L q ≡ kept ++ xs
    → length xs < n
    → forget_wait n (first xs) s ≡ ok (record s { pcb = forgotten xs s.pcb })
unfolding forget_wait
forget_wait-forgotten xs kept zero q s R e fuel = absurd (omega arith)
forget_wait-forgotten [] kept (suc n) q s R e fuel = refl
forget_wait-forgotten (x ∷ xs) kept (suc n) q s {L} R e fuel =
    let u = set_pcb x (record (s.pcb x) { waiting_pcb = negsuc 0 }) s in
    rw (next-append R q kept x xs e) (
      forget_wait-forgotten xs (kept ++ x ∷ []) n q u R (e ∙ sym (append_assoc kept (x ∷ []) xs))
        (omega arith))

-- The table when the locks are released: the process is gone, and those that waited for it are ready.
abbrev ended : ℕ → State → List ℕ → ℕ → Pcb
ended i s xs = wake_all xs (forgotten xs (update s.pcb i (record (s.pcb i) { status = not_exist })))

ended-same :
    (i : ℕ) (s : State) (xs : List ℕ) (a : ℕ)
    → ((ended i s xs a).pid ≡ (s.pcb a).pid)
      × ((ended i s xs a).lock_owned ≡ (s.pcb a).lock_owned)
      × ((ended i s xs a).status
          ≡ (if has a xs then TaskStatus.ready else if i == a then not_exist else (s.pcb a).status))
      × ((ended i s xs a).waiting_pcb ≡ (if has a xs then negsuc 0 else (s.pcb a).waiting_pcb))
ended-same i s xs a =
    let gone = update s.pcb i (record (s.pcb i) { status = not_exist }) in
    let f = forgotten-same xs gone a in
    let w = wake_all-lock_owned xs (forgotten xs gone) a in
    let pid : (gone a).pid ≡ (s.pcb a).pid = ground arith in
    let owned : (gone a).lock_owned ≡ (s.pcb a).lock_owned = ground arith in
    let noted : (gone a).waiting_pcb ≡ (s.pcb a).waiting_pcb = ground arith in
    let status : (gone a).status ≡ (if i == a then not_exist else (s.pcb a).status) =
      ground arith in
    (
      w.1 ∙ f.0 ∙ pid,
      w.0 ∙ f.1 ∙ owned,
      wake_all-status xs (forgotten xs gone) a ∙ ground (arith, f, status),
      w.2 ∙ ground (arith, f, noted),
    )

-- From `s` with the contents `L` to `t` with `L'`: the process of `pcb[i]` is gone, it owns no lock and its
-- locks are free, all that waited for it are ready and wait for no process, and all is in order again.
abbrev pub IsEnded : ℕ → State → Lists → State → Lists → Type 0
IsEnded i s L t L' =
    CanRelease i t L'
    × ((t.pcb i).status ≡ not_exist)
    × ((k : ℕ) → holds k (t.pcb i).lock_owned ≡ false)
    × ((k : ℕ) → t.mutex k ≡ (if holds k (s.pcb i).lock_owned then free_lock else s.mutex k))
    × (L' (waiting i) ≡ [])
    × ((a : ℕ) → has a (L (waiting i)) ≡ true → (t.pcb a).status ≡ TaskStatus.ready)
    × ((a : ℕ) → has a (L (waiting i)) ≡ true → (t.pcb a).waiting_pcb ≡ negsuc 0)
    × (t.current_running ≡ s.current_running)

module _ (i : ℕ) (s : State) {L : Lists} (C : CanRelease i s L)
    (five : length (s.pcb i).lock_owned ≡ max_mutex_own) where
  -- The state when the locks are released.
  abbrev Unblocked : Type 0
  Unblocked =
      (t : State) × (end_process i s ≡ release_locks max_mutex_own 0 i t)
      × CanRelease i t (drained (waiting i) L)
      × (t.pcb ≡ ended i s (L (waiting i)))
      × (t.mutex ≡ s.mutex)
      × (t.current_running ≡ s.current_running)

  end_process-unblocked : Unblocked
  unfolding end_process
  end_process-unblocked =
      let xs = L (waiting i) in
      let s₁ = set_pcb i (record (s.pcb i) { status = not_exist }) s in
      let walked : forget_wait 17 (s₁.links.queue (waiting i)).head s₁
          ≡ ok (record s₁ { pcb = forgotten xs s₁.pcb }) =
        ap (λ h. forget_wait 17 h s₁) (head-eq-first C.queues (waiting i))
        ∙ forget_wait-forgotten xs [] 17 (waiting i) s₁ C.queues refl
            (omega (arith, length-le C.queues (waiting i))) in
      let s₂ = record s₁ { pcb = forgotten xs s₁.pcb } in
      let (l, e, R') = do_unblock_all-drained (waiting i) s₂ C.queues refl in
      let t : State = record s₂ { links = l; pcb = ended i s xs } in
      let same = ended-same i s xs in
      let pids : (a : ℕ) → (t.pcb a).pid ≡ (s.pcb a).pid = λ a. (same a).0 in
      (
        t,
        rw (walked, e) refl,
        record {
          queues = R';
          owned = λ m a high h.
              let here : holds m (s.pcb a).lock_owned ≡ true =
                ap (λ o. holds m o) (sym (same a).1) ∙ h in
              let before = C.owned m a high here in (before.0, before.1 ∙ sym (pids a));
          found = rw (pids i) (lookup_pid-cong (s.pcb i).pid t s pids ∙ C.found);
          unique = λ a high e'. C.unique a high (sym (pids a) ∙ e' ∙ pids i);
          inside = C.inside;
          free = drained-IsFree i (waiting i) L C.free;
        },
        refl,
        refl,
        refl,
      )

  pub end_process-IsEnded :
      (t : State) × (L' : Lists) × (end_process i s ≡ ok t) × IsEnded i s L t L'
  end_process-IsEnded =
      let (u, e, D, table, locks, runs) = end_process-unblocked in
      let same = ended-same i s (L (waiting i)) in
      let status : (a : ℕ) → (u.pcb a).status ≡ (ended i s (L (waiting i)) a).status =
        λ a. ap (λ (f : ℕ → Pcb). (f a).status) table in
      let owned : (u.pcb i).lock_owned ≡ (s.pcb i).lock_owned =
        ap (λ (f : ℕ → Pcb). (f i).lock_owned) table ∙ (same i).1 in
      let (t, L', run, E, none_held, freed, K) =
        release_locks-frees max_mutex_own 0 i u D (λ k low. absurd (omega arith))
          (ap length owned ∙ five) in
      (
        t,
        L',
        e ∙ run,
        (
          E,
          K.own ∙ status i ∙ (same i).2 ∙ rw (C.free (waiting i), ==_self i) refl,
          none_held,
          λ k. freed k ∙ rw (owned, locks) refl,
          K.waits i ∙ rw (==_self i) refl,
          λ a waits. K.awake a (status a ∙ (same a).2 ∙ rw waits refl),
          λ a waits.
              K.note a ∙ ap (λ (f : ℕ → Pcb). (f a).waiting_pcb) table ∙ (same a).3 ∙ rw waits refl,
          K.runs ∙ runs,
        ),
      )

-- `do_exit` ends and calls the scheduler when the current process is gone: it exists no more and
-- stands in no queue, its locks are free and it names none, all processes that waited for it are
-- ready and wait no more, and tables, locks and queues are in order. Conditions: queues, tables
-- and locks are in order, the process is found by its number, which is its own, and it stands in
-- no queue.
pub do_exit-IsEnded :
    (s : State) {L : Lists}
    → CanRelease s.current_running s L
    → length (s.pcb s.current_running).lock_owned ≡ max_mutex_own
    → (t : State) × (L' : Lists) × (do_exit s ≡ do_scheduler leave t)
      × IsEnded s.current_running s L t L'
unfolding do_exit
do_exit-IsEnded s C five =
    let (t, L', e, E) = end_process-IsEnded s.current_running s C five in (t, L', rw e refl, E)
