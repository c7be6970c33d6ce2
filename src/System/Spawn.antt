-- ===== src/System/Spawn.antt =====
-- `do_spawn` of init/main.c, on an orderly kernel.
use os_prj.Prelude.{
  ℕ, zero, suc, ◌+◌, ◌≤◌, ◌≢◌, ◌∷◌, has-append, ◌<◌, ◌≡◌, ◌∙◌, refl, sym, ap, false, [], arith, has,
  ◌==◌, ==_self, eq_of_==, pos, ltb, ltb_ℤ, ltb_ℤ-incr, ltb_ℤ-incr_self, ltb_ℤ-irrefl, ◌+ℤ◌,
  Bool-cases, inl, inr,
}
use os_prj.Run.{ok, hang}
use os_prj.Queue.{QueueId, sleep, waiting, put}
use os_prj.Queue.Represents.{Lists, IsFree, num_max_task}
use os_prj.Queue.Push.{pushed, queue_push-snoc}
use os_prj.Kernel.{State, Pcb, TaskStatus, MutexLock, leave, exists, may_run, is_running, set_pcb}
use os_prj.Sched.{get_timer, do_scheduler}
use os_prj.Locking.Mutex.Owned.{holds}
use os_prj.Process.{TaskInfo, new_pcb, kernel_sp, user_sp, find_spare, spawn_at, do_spawn}
use os_prj.Process.Table.{queue_init-nil}
use os_prj.System.Placed.{status_in, pushed-IsPlaced, put-IsPlaced}
use os_prj.System.Invariant.{IsAccounted, IsSettled, IsOrderly, IsOrderly-IsFree}
use os_prj.System.Calls.{do_scheduler-InOrder}
use os_prj.System.Counted.{IsCounted, InOrder, apart-IsCounted, pushed-object, put-object}

-- The block that the search finds is free.
find_spare-spare :
    (s : State) (n j : ℕ)
    → let i = find_spare n j s in (j ≤ i) × (i < j + n → exists (s.pcb i).status ≡ false)
unfolding find_spare
find_spare-spare s zero j = (omega arith, λ h. absurd (omega arith))
find_spare-spare s (suc n) j =
    let (low, spare) = find_spare-spare s n (j + 1) in
    elim (Bool-cases (exists (s.pcb j).status)) [
      | inl used ↦ rw used (omega (arith, low), λ h. spare (omega arith))
      | inr free ↦ rw free (omega arith, λ h. free)
    ]

-- A free block is not the current one, and stands in no queue.
module _ (s : State) (L : Lists) (O : IsOrderly s L) (i : ℕ)
    (spare : exists (s.pcb i).status ≡ false) where
  spare-IsFree : IsFree i L
  spare-IsFree q = elim (Bool-cases (has i (L q))) [
    | inr out ↦ out
    | inl here ↦
        let at = O.settled.placed q i here in
        absurd (let wrong = ap (λ x. exists x) (sym at) ∙ spare in status_in-exists q wrong)
  ]
    where
      status_in-exists : (q : QueueId) → exists (status_in q) ≡ false → ⊥
      status_in-exists (QueueId.ready k) h = cc
      status_in-exists sleep h = cc
      status_in-exists q h = cc

  spare-other : 0 < i → (s.current_running == i) ≡ false
  spare-other above = ground (arith, O.runs, spare, eq_of_== s.current_running i)

module _ (s u : State) (L : Lists) (O : IsOrderly s L) (i : ℕ) (low : 2 ≤ i)
    (high : i < num_max_task) (spare : exists (s.pcb i).status ≡ false)
    (same : (a : ℕ) → (i == a) ≡ false → u.pcb a ≡ s.pcb a) (fresh_pid : (u.pcb i).pid ≡ s.next_pid)
    (fresh_status : (u.pcb i).status ≡ TaskStatus.ready)
    (fresh_owned : (k : ℕ) → holds k (u.pcb i).lock_owned ≡ false) (locks : u.mutex ≡ s.mutex)
    (next : u.next_pid ≡ s.next_pid +ℤ pos 1) (runs : u.current_running ≡ s.current_running) where
  -- The new process has the next number, and names no lock.
  spawned-IsAccounted : IsAccounted u
  spawned-IsAccounted =
      let A = O.settled.accounts in
      record {
        owned = λ k a h held. ground (
          arith,
          ap (λ (f : ℕ → MutexLock). f k) locks,
          same a,
          fresh_owned k,
          held,
          A.owned k a h,
          eq_of_== i a,
        );
        unique = λ a b ha hb n e. ground (
          arith,
          same a,
          same b,
          eq_of_== i a,
          eq_of_== i b,
          fresh_pid,
          A.fresh a ha,
          A.fresh b hb,
          ltb_ℤ-irrefl s.next_pid,
          A.unique a b ha hb,
          n,
          e,
        );
        fresh = λ a h. ground (
          arith,
          same a,
          fresh_pid,
          next,
          eq_of_== i a,
          ltb_ℤ-incr (s.pcb a).pid s.next_pid (A.fresh a h),
          ltb_ℤ-incr_self s.next_pid,
        );
        positive = rw next (ltb_ℤ-incr (pos 0) s.next_pid A.positive);
        holders = λ k a h held.
            ground (arith, same a, fresh_owned k, held, A.holders k a h, eq_of_== i a);
      }

module _ (handle_int : ℕ) (info : TaskInfo) (s t : State) (L : Lists) (O : IsOrderly s L)
    (N : IsCounted s L) where
  spawn_at-InOrder :
      (i : ℕ)
      → 2 ≤ i
      → i < num_max_task
      → exists (s.pcb i).status ≡ false
      → spawn_at i handle_int info s ≡ ok t
      → InOrder t
  unfolding spawn_at get_timer
  spawn_at-InOrder i low high spare run =
      let me = s.current_running in
      let S = O.settled in
      let free = spare-IsFree s L O i spare in
      let other = spare-other s L O i spare in
      let M = put L (waiting i) [] in
      let (l, e, R) =
        queue_push-snoc (queue_init-nil (waiting i) S.queues) (QueueId.ready 0) i
          (λ r. ground (arith, free r)) (omega arith) high in
      let p =
        new_pcb (s.pcb i) handle_int (kernel_sp s.historical_num) (user_sp s.historical_num)
          info.entry_point info.type s.next_pid 1 in
      let u = record (set_pcb i p s) {
        links = l;
        next_pid = s.next_pid +ℤ pos 1;
        historical_num = s.historical_num + 1;
      } in
      let same : spawn_at i handle_int info s ≡ do_scheduler leave u = rw e refl in
      let kept : (a : ℕ) → (i == a) ≡ false → u.pcb a ≡ s.pcb a = λ a o. rw o refl in
      let new : u.pcb i ≡ p = rw (==_self i) refl in
      let named : (u.pcb i).pid ≡ s.next_pid = ap (λ (x : Pcb). x.pid) new in
      let is_ready : (u.pcb i).status ≡ TaskStatus.ready = ap (λ (x : Pcb). x.status) new in
      let A : IsAccounted u =
        spawned-IsAccounted s u L O i low high spare kept named is_ready
          (λ k. ap (λ (x : Pcb). holds k x.lock_owned) new) refl refl refl in
      let mine : u.pcb me ≡ s.pcb me = elim (Bool-cases (i == me)) [
        | inl e' ↦ absurd (omega (arith, eq_of_== i me e', inside_other i low spare))
        | inr o ↦ kept me o
      ] in
      let settled : IsSettled u (pushed (QueueId.ready 0) i M) = record {
        queues = R;
        placed =
            pushed-IsPlaced s.pcb u.pcb M (QueueId.ready 0) i
              (put-IsPlaced s.pcb L (waiting i) [] S.placed (λ a h. cc)) is_ready
              (λ a o. ap (λ (x : Pcb). x.status) (kept a (ground (arith, eq_of_== i a, ==_self a))))
              (λ r. ground (arith, free r));
        members = λ q a h. ground (
          arith,
          has-append a (M q) (i ∷ []),
          S.members q a,
          kept a,
          named,
          S.accounts.positive,
          eq_of_== i a,
          eq_of_== a i,
        );
        inside = S.inside;
        leaves =
            ap (λ (x : Pcb). may_run x.status) mine
            ∙ S.leaves
            ∙ ap (λ (x : Pcb). is_running x.status) (sym mine);
        rested = λ h. absurd (let out = sym (IsOrderly-IsFree s L O sleep) ∙ h in cc);
        caller = λ above. ap (λ (x : Pcb). ltb_ℤ (pos 0) x.pid) mine ∙ S.caller above;
        accounts = A;
      } in
      do_scheduler-InOrder leave u t (pushed (QueueId.ready 0) i M) settled
        (apart-IsCounted s L (pushed (QueueId.ready 0) i M)
          (λ q h.
            pushed-object (QueueId.ready 0) q i M refl h ∙ put-object (waiting i) q [] L refl h)
          N)
        (sym same ∙ run)
    where
      inside_other : (i : ℕ) → 2 ≤ i → exists (s.pcb i).status ≡ false → i ≢ s.current_running
      inside_other i low spare e = ground (arith, O.runs, spare, e)

  pub do_spawn-InOrder : do_spawn handle_int info s ≡ ok t → InOrder t
  unfolding do_spawn
  do_spawn-InOrder run =
      let i = find_spare 14 2 s in
      let (low, spare) = find_spare-spare s 14 2 in
      elim (Bool-cases (ltb i num_max_task)) [
        | inl within ↦
            let same : do_spawn handle_int info s ≡ spawn_at i handle_int info s = rw within refl in
            spawn_at-InOrder i low (ground arith) (spare (ground arith)) (sym same ∙ run)
        | inr full ↦
            let stops : do_spawn handle_int info s ≡ hang = rw full refl in
            absurd (let wrong = sym stops ∙ run in cc)
      ]
