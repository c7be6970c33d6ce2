-- ===== src/System/Setup.antt =====
-- `process_show` of init/main.c, and the functions of kernel/locking that set up an object.
use os_prj.Prelude.{
  ℕ, zero, suc, ◌+◌, ◌<◌, ◌≡◌, ◌∙◌, refl, true, false, [], arith, has, ℤ, pos, leb_ℤ, Bool-cases,
  ◌+ℤ◌, inl, inr,
}
use os_prj.Queue.{QueueId, sleep, of_mutex, of_semaphore, of_barrier, of_condition, put, queue_init}
use os_prj.Queue.Represents.{Lists, num_max_task}
use os_prj.Kernel.{
  State, exists, printk, process_table, process_line, semaphore_wrong, set_semaphore, current,
}
use os_prj.Locking.Mutex.{do_mutex_lock_init}
use os_prj.Locking.Mutex.Owned.{holds}
use os_prj.Locking.Semaphore.{do_semaphore_init}
use os_prj.Locking.Barrier.{do_barrier_init}
use os_prj.Locking.Condition.{do_condition_init}
use os_prj.Process.{show_from, process_show}
use os_prj.Process.Table.{queue_init-nil}
use os_prj.System.Placed.{put-IsPlaced, put-AreAll}
use os_prj.System.Invariant.{
  IsAccounted, IsAccounted-cong, IsOrderly, IsOrderly-IsFree, is_numbered,
}
use os_prj.System.Moves.{settle}
use os_prj.System.Counted.{IsCounted, InOrder}
use os_prj.System.Cleared.{fenced-IsCounted, set_up-IsCounted, cleared-IsCounted, opened-IsCounted}
use os_prj.System.Objects.{aside-IsOrderly}
use os_prj.System.Mutex.{unheld-IsAccounted}

-- A queue starts again with nobody in it.
module _ (s t : State) (L : Lists) (O : IsOrderly s L) (q : QueueId)
    (links : t.links ≡ queue_init q s.links) (table : t.pcb ≡ s.pcb)
    (runs : t.current_running ≡ s.current_running) (A : IsAccounted t) where
  emptied-InOrder : (IsCounted t (put L q [])) → InOrder t
  emptied-InOrder N =
      let S = O.settled in
      let status : (current t).status ≡ (current s).status = rw (table, runs) refl in
      let none_in : (a : ℕ) → has a [] ≡ true → has a (L q) ≡ true = λ a h. cc in
      let free = IsOrderly-IsFree s L O sleep in
      (
        put L q [],
        record {
          settled =
              settle s t L S runs (λ a. rw table refl) A (put L q [])
                (rw links (queue_init-nil q S.queues))
                (rw table (put-IsPlaced s.pcb L q [] S.placed none_in))
                (put-AreAll (is_numbered s) L S.members q [] none_in) (rw status S.leaves)
                (λ h. absurd (let here = rw runs at h in ground (arith, free, here)));
          runs = λ low. status ∙ O.runs (rw runs at low);
        },
        N,
      )

module _ (k : ℕ) (s : State) (L : Lists) (O : IsOrderly s L) (N : IsCounted s L) where
  pub do_semaphore_init-InOrder : (v : ℤ) → InOrder (do_semaphore_init k v s)
  unfolding do_semaphore_init
  do_semaphore_init-InOrder v = elim (Bool-cases (leb_ℤ (pos 0) v)) [
    | inl good ↦
        let t = set_semaphore k v (record s { links = queue_init (of_semaphore k) s.links }) in
        rw (good, do_semaphore_init)
          (emptied-InOrder s t L O (of_semaphore k) refl refl refl
            (IsAccounted-cong s t (λ a. refl) (λ a. refl) (λ m. refl) refl O.settled.accounts)
            (set_up-IsCounted k s L v good N))
    | inr bad ↦
        rw (bad, do_semaphore_init)
          (L, aside-IsOrderly s (printk semaphore_wrong s) L refl refl refl refl refl O, N)
  ]

  pub do_barrier_init-InOrder : (v : ℤ) → InOrder (do_barrier_init k v s)
  unfolding do_barrier_init
  do_barrier_init-InOrder v =
      emptied-InOrder s (do_barrier_init k v s) L O (of_barrier k) refl refl refl
        (IsAccounted-cong s (do_barrier_init k v s) (λ a. refl) (λ a. refl) (λ m. refl) refl
          O.settled.accounts)
        (fenced-IsCounted k s L v N)

  pub do_condition_init-InOrder : InOrder (do_condition_init k s)
  unfolding do_condition_init
  do_condition_init-InOrder =
      emptied-InOrder s (do_condition_init k s) L O (of_condition k) refl refl refl
        (IsAccounted-cong s (do_condition_init k s) (λ a. refl) (λ a. refl) (λ m. refl) refl
          O.settled.accounts)
        (cleared-IsCounted k s L N)

  pub do_mutex_lock_init-InOrder :
      ((a : ℕ) → a < num_max_task → holds k (s.pcb a).lock_owned ≡ false)
      → InOrder (do_mutex_lock_init k s)
  unfolding do_mutex_lock_init
  do_mutex_lock_init-InOrder unheld =
      emptied-InOrder s (do_mutex_lock_init k s) L O (of_mutex k) refl refl refl
        (unheld-IsAccounted k s (do_mutex_lock_init k s) (λ a. refl) (λ a. refl)
          (λ m o. ground (arith, o)) refl unheld O.settled.accounts)
        (opened-IsCounted k s L (do_mutex_lock_init k s).mutex (λ m o. rw o refl) N)

show_from-InOrder : (n i num : ℕ) (s : State) → InOrder s → InOrder (show_from n i num s)
unfolding show_from
show_from-InOrder zero i num s O = O
show_from-InOrder (suc n) i num s (L, O, N) =
    let line =
      printk (process_line num (s.pcb i).pid (s.pcb i).status)
        (record s { screen_cursor_y = s.screen_cursor_y +ℤ pos 1 }) in
    elim (Bool-cases (exists (s.pcb i).status)) [
      | inl shown ↦
          rw (shown, show_from)
            (show_from-InOrder n (i + 1) (num + 1) line
              (L, aside-IsOrderly s line L refl refl refl refl refl O, N))
      | inr hidden ↦ rw (hidden, show_from) (show_from-InOrder n (i + 1) num s (L, O, N))
    ]

pub process_show-InOrder : (s : State) → InOrder s → InOrder (process_show s)
unfolding process_show
process_show-InOrder s (L, O, N) =
    let u = printk process_table s in
    let v = show_from 15 1 0 u in
    let (M, P, N') =
      show_from-InOrder 15 1 0 u (L, aside-IsOrderly s u L refl refl refl refl refl O, N) in
    (
      M,
      aside-IsOrderly v (record v { screen_cursor_y = v.screen_cursor_y +ℤ pos 1 }) M refl refl refl
          refl refl P,
      N',
    )
