-- ===== src/Process/Locks.antt =====
-- How the locks of a process that ends are released (`do_kill` and `do_exit` of init/main.c).
use os_prj.Prelude.{
  ℕ, has, zero, suc, Bool-cases, Option-cases, inl, inr, eq_of_==, ◌+◌, ◌≤◌, ◌<◌, ◌≡◌, ◌∙◌, refl,
  sym, ap, true, false, Option, none, some, List, [], ◌∷◌, arith, length, get_elem?, ◌==◌, ==_self,
  if◌then◌else◌,
}
use os_prj.Run.{ok}
use os_prj.Queue.{of_mutex, waiting}
use os_prj.Queue.Represents.{Represents, Lists, IsFree, num_max_task}
use os_prj.Kernel.{Pcb, State, TaskStatus, lookup_pid}
use os_prj.Kernel.Lookup.{lookup_pid-cong}
use os_prj.Sched.Unblock.{drained, wake_all-status, drained-IsFree}
use os_prj.Locking.Mutex.{is_lock, drop_owned, do_mutex_lock_release}
use os_prj.Locking.Mutex.Owned.{holds, holds-drop_owned, IsOwned, wake_all-lock_owned}
use os_prj.Locking.Mutex.Release.{
  free_lock, dropped, do_mutex_lock_release-drained, dropped-IsOwned,
}
use os_prj.Process.{release_locks}

-- An entry after the lock was dropped.
abbrev dropped_entry : ℕ → Option (Option ℕ) → Option (Option ℕ)
dropped_entry m none = none
dropped_entry m (some o) = some (if is_lock m o then none else o)

get_elem?-drop_owned :
    (m : ℕ) (owned : List (Option ℕ)) (k : ℕ)
    → get_elem? (drop_owned m owned) k ≡ dropped_entry m (get_elem? owned k)
get_elem?-drop_owned m [] k = refl
get_elem?-drop_owned m (o ∷ rest) zero = refl
get_elem?-drop_owned m (o ∷ rest) (suc k) = get_elem?-drop_owned m rest k

holds_of_get_elem? :
    (m : ℕ) (owned : List (Option ℕ)) (k : ℕ)
    → get_elem? owned k ≡ some (some m)
    → holds m owned ≡ true
holds_of_get_elem? m [] k h = cc
holds_of_get_elem? m (o ∷ rest) zero h = ground arith
holds_of_get_elem? m (o ∷ rest) (suc k) h = ground (arith, holds_of_get_elem? m rest k h)

-- What makes the release of all locks of `pcb[i]` work: the kernel's queues are in order, tables and
-- locks agree, and the process is found by its number, which is its own.
pub record CanRelease (i : ℕ) (s : State) (L : Lists) : Type 0 where
  pub queues : Represents s.links L
  pub owned : IsOwned s
  pub found : lookup_pid (s.pcb i).pid s ≡ ok i
  pub unique : (a : ℕ) → a < num_max_task → (s.pcb a).pid ≡ (s.pcb i).pid → a ≡ i
  pub inside : i < num_max_task
  pub free : IsFree i L

-- What a release leaves as it is: who waits for a process and what it noted, which processes are ready, the status of
-- `pcb[i]` and the current process.
pub record Keeps (i : ℕ) (s : State) (L : Lists) (t : State) (L' : Lists) : Type 0 where
  pub waits : (k : ℕ) → L' (waiting k) ≡ L (waiting k)
  pub note : (a : ℕ) → (t.pcb a).waiting_pcb ≡ (s.pcb a).waiting_pcb
  pub awake : (a : ℕ) → (s.pcb a).status ≡ TaskStatus.ready → (t.pcb a).status ≡ TaskStatus.ready
  pub own : (t.pcb i).status ≡ (s.pcb i).status
  pub runs : t.current_running ≡ s.current_running

Keeps-refl : (i : ℕ) (s : State) (L : Lists) → Keeps i s L s L
Keeps-refl i s L = record {
  waits = λ k. refl;
  note = λ a. refl;
  awake = λ a h. h;
  own = refl;
  runs = refl;
}

Keeps-trans :
    {i : ℕ} {s t u : State} {L M N : Lists} → Keeps i s L t M → Keeps i t M u N → Keeps i s L u N
Keeps-trans K K' = record {
  waits = λ k. K'.waits k ∙ K.waits k;
  note = λ a. K'.note a ∙ K.note a;
  awake = λ a h. K'.awake a (K.awake a h);
  own = K'.own ∙ K.own;
  runs = K'.runs ∙ K.runs;
}

-- One lock of the process is released.
release_one :
    {L : Lists} (i m : ℕ) (s : State)
    → CanRelease i s L
    → holds m (s.pcb i).lock_owned ≡ true
    → (t : State) × (do_mutex_lock_release m s ≡ ok t)
      × CanRelease i t (drained (of_mutex m) L)
      × ((t.pcb i).lock_owned ≡ drop_owned m (s.pcb i).lock_owned)
      × ((k : ℕ) → t.mutex k ≡ (if m == k then free_lock else s.mutex k))
      × Keeps i s L t (drained (of_mutex m) L)
release_one {L} i m s C has_lock =
    let owner = (C.owned m i C.inside has_lock).1 in
    let found : lookup_pid (s.mutex m).owner s ≡ ok i = rw owner C.found in
    let (t, e, R', table, locks, _, runs) = do_mutex_lock_release-drained m s i found C.queues in
    let kept = wake_all-lock_owned (L (of_mutex m)) (dropped m i s) in
    let pids : (a : ℕ) → (t.pcb a).pid ≡ (s.pcb a).pid = λ a.
      let own : (dropped m i s a).pid ≡ (s.pcb a).pid = ground arith in
      ap (λ (f : ℕ → Pcb). (f a).pid) table ∙ (kept a).1 ∙ own in
    let mine : (dropped m i s i).lock_owned ≡ drop_owned m (s.pcb i).lock_owned =
      rw (==_self i) refl in
    let status : (a : ℕ)
        → (t.pcb a).status
          ≡ (if has a (L (of_mutex m)) then TaskStatus.ready else (dropped m i s a).status) =
      λ a.
        ap (λ (f : ℕ → Pcb). (f a).status) table
        ∙ wake_all-status (L (of_mutex m)) (dropped m i s) a in
    (
      t,
      e,
      record {
        queues = R';
        owned =
            dropped-IsOwned m s (L (of_mutex m)) i t (λ a high same. C.unique a high (same ∙ owner))
              C.owned table locks;
        found = rw (pids i) (lookup_pid-cong (s.pcb i).pid t s pids ∙ C.found);
        unique = λ a high same. C.unique a high (sym (pids a) ∙ same ∙ pids i);
        inside = C.inside;
        free = drained-IsFree i (of_mutex m) L C.free;
      },
      ap (λ (f : ℕ → Pcb). (f i).lock_owned) table ∙ (kept i).0 ∙ mine,
      locks,
      record {
        waits = λ k. refl;
        note = λ a.
            let own : (dropped m i s a).waiting_pcb ≡ (s.pcb a).waiting_pcb = ground arith in
            ap (λ (f : ℕ → Pcb). (f a).waiting_pcb) table
            ∙ (wake_all-lock_owned (L (of_mutex m)) (dropped m i s) a).2
            ∙ own;
        awake = λ a h. status a ∙ ground (arith, h);
        own = status i ∙ rw (C.free (of_mutex m), ==_self i) refl;
        runs = runs;
      },
    )

length-drop_owned : (m : ℕ) (owned : List (Option ℕ)) → length (drop_owned m owned) ≡ length owned
length-drop_owned m [] = refl
length-drop_owned m (none ∷ rest) = ap suc (length-drop_owned m rest)
length-drop_owned m (some o ∷ rest) = ap suc (length-drop_owned m rest)

get_elem?-none : (owned : List (Option ℕ)) (k : ℕ) → get_elem? owned k ≡ none → length owned ≤ k
get_elem?-none [] k h = ground arith
get_elem?-none (o ∷ rest) zero h = cc
get_elem?-none (o ∷ rest) (suc k) h = ground (arith, get_elem?-none rest k h)

-- The entries below `j` are empty.
abbrev pub IsCleared : ℕ → List (Option ℕ) → Type 0
IsCleared j owned = (k : ℕ) → k < j → get_elem? owned k ≡ some none

IsCleared-drop_owned :
    (j m : ℕ) (owned : List (Option ℕ))
    → IsCleared j owned
    → get_elem? owned j ≡ some (some m)
    → IsCleared (j + 1) (drop_owned m owned)
IsCleared-drop_owned j m owned clear entry k low = elim (Bool-cases (k == j)) [
  | inl e ↦
      let at : k ≡ j = eq_of_== k j e in
      get_elem?-drop_owned m owned k
      ∙ ap (λ x. dropped_entry m (get_elem? owned x)) at
      ∙ ap (dropped_entry m) entry
      ∙ rw (==_self m) refl
  | inr ne ↦
      let below : k < j = ground (arith, ==_self k) in
      get_elem?-drop_owned m owned k ∙ ap (dropped_entry m) (clear k below)
]

IsCleared-suc :
    (j : ℕ) (owned : List (Option ℕ))
    → IsCleared j owned
    → get_elem? owned j ≡ some none
    → IsCleared (j + 1) owned
IsCleared-suc j owned clear entry k low = elim (Bool-cases (k == j)) [
  | inl e ↦ ap (get_elem? owned) (eq_of_== k j e) ∙ entry
  | inr ne ↦ clear k (ground (arith, ==_self k))
]

-- Empty entries name no lock.
not-holds :
    (m : ℕ) (owned : List (Option ℕ)) → IsCleared (length owned) owned → holds m owned ≡ false
not-holds m [] clear = refl
not-holds m (none ∷ rest) clear = not-holds m rest λ k low. clear (suc k) (ground arith)
not-holds m (some o ∷ rest) clear = let c = clear 0 (ground arith) in cc

-- The loop of `do_kill` and `do_exit` over the locks of a process frees exactly the locks that the
-- process names, and leaves it none; queues, tables and locks stay in order, nobody who waits for
-- a process is touched, and who is ready stays so. The entries before the start of the loop are
-- empty, and the process is found by its number, which is its own, and stands in no queue.
pub release_locks-frees :
    (n j i : ℕ) (s : State) {L : Lists}
    → CanRelease i s L
    → IsCleared j (s.pcb i).lock_owned
    → length (s.pcb i).lock_owned ≡ n + j
    → (t : State) × (L' : Lists) × (release_locks n j i s ≡ ok t)
      × CanRelease i t L'
      × ((k : ℕ) → holds k (t.pcb i).lock_owned ≡ false)
      × ((k : ℕ) → t.mutex k ≡ (if holds k (s.pcb i).lock_owned then free_lock else s.mutex k))
      × Keeps i s L t L'
unfolding release_locks
release_locks-frees zero j i s {L} C clear size =
    let none_held : (k : ℕ) → holds k (s.pcb i).lock_owned ≡ false =
      λ k. not-holds k (s.pcb i).lock_owned λ x low. clear x (omega arith) in
    (s, L, refl, C, none_held, λ k. rw (none_held k) refl, Keeps-refl i s L)
release_locks-frees (suc n) j i s {L} C clear size =
    elim (Option-cases (get_elem? (s.pcb i).lock_owned j)) [
      | inl e ↦ absurd (omega (arith, get_elem?-none (s.pcb i).lock_owned j e))
      | inr (none, e) ↦
          let (t, L', run, C', free, locks, runs) =
            release_locks-frees n (j + 1) i s C (IsCleared-suc j _ clear e) (omega arith) in
          (t, L', rw (e, release_locks, run) refl, C', free, locks, runs)
      | inr (some m, e) ↦
          let (u, run₁, C₁, entries, locks₁, runs₁) =
            release_one i m s C (holds_of_get_elem? m _ j e) in
          let owned = (s.pcb i).lock_owned in
          let (t, L', run, C', free, locks, runs) =
            release_locks-frees n (j + 1) i u C₁
              (rw entries (IsCleared-drop_owned j m owned clear e))
              (ap length entries ∙ length-drop_owned m owned ∙ omega arith) in
          let dropped_only : (k : ℕ)
              → holds k (u.pcb i).lock_owned ≡ (if m == k then false else holds k owned) =
            λ k. ap (λ o. holds k o) entries ∙ holds-drop_owned m k owned in
          let held : (k : ℕ) → (m == k) ≡ true → holds k owned ≡ true = λ k same.
            ap (λ x. holds x owned) (sym (eq_of_== m k same)) ∙ holds_of_get_elem? m owned j e in
          (
            t,
            L',
            rw (e, release_locks, run₁, run) refl,
            C',
            free,
            λ k. ground (arith, locks k, locks₁ k, dropped_only k, held k),
            Keeps-trans runs₁ runs,
          )
    ]
