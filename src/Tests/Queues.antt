-- ===== src/Tests/Queues.antt =====
-- The theorems on kernel/sched/queue.c and kernel/sched/sched.c, tried on small queues.
use os_prj.Prelude.{ℕ, ◌==◌, if◌then◌else◌, ◌≡◌, refl, none, [], ◌∷◌, arith}
use os_prj.Run.{ok, fault}
use os_prj.Queue.{QueueId, sleep, waiting, put, Links, queue_push, queue_dequeue, queue_remove}
use os_prj.Queue.Represents.{Represents}
use os_prj.Queue.Push.{pushed, queue_push-snoc}
use os_prj.Queue.Dequeue.{queue_dequeue-cons}
use os_prj.Queue.Remove.{queue_remove-ends}
use os_prj.Kernel.{State, TaskStatus, blocked, sleeping}
use os_prj.Sched.{get_timer, scheduler, dispatch, check_sleeping, do_unblock_all, suspend}
use os_prj.Sched.Unblock.{wake_all, drained, do_unblock_all-drained}
use os_prj.Sched.Sleep.{select, due, swept, check_sleeping-swept, check_sleeping-fault}
use os_prj.Sched.Schedule.{requeued, woken, awake, demote, scheduler-first}
use os_prj.Tests.{three_lists, three_links, three-Represents, three-IsFree, kernel}

queue_push-snoc_example :
    (l : Links) × (queue_push sleep 4 (three_links sleep) ≡ ok l)
    × Represents l (pushed sleep 4 (three_lists sleep))
queue_push-snoc_example =
    queue_push-snoc (three-Represents sleep) sleep 4 (three-IsFree sleep) (omega arith)
      (omega arith)

queue_dequeue-cons_example :
    (l : Links) × (queue_dequeue sleep (three_links sleep) ≡ ok (1, l))
    × Represents l (put (three_lists sleep) sleep (2 ∷ 3 ∷ []))
queue_dequeue-cons_example = queue_dequeue-cons (three-Represents sleep) sleep 1 (2 ∷ 3 ∷ []) refl

queue_remove-ends_example :
    (l : Links) × (queue_remove sleep 3 (three_links sleep) ≡ ok (none, l))
    × Represents l (put (three_lists sleep) sleep (1 ∷ 2 ∷ []))
queue_remove-ends_example =
    queue_remove-ends (three-Represents sleep) sleep 3 (1 ∷ 2 ∷ []) [] refl refl

do_unblock_all-drained_example :
    let s = kernel (three_links (waiting 2)) blocked in
    (l : Links) × (do_unblock_all (waiting 2) s
      ≡ ok (record s { links = l; pcb = wake_all (1 ∷ 2 ∷ 3 ∷ []) s.pcb }))
    × Represents l (drained (waiting 2) (three_lists (waiting 2)))
do_unblock_all-drained_example =
    do_unblock_all-drained (waiting 2) (kernel (three_links (waiting 2)) blocked)
      (three-Represents (waiting 2)) refl

-- All three sleep, and their alarms are at 10.
abbrev asleep : (time_elapsed : ℕ) → State
asleep t = record (kernel (three_links sleep) sleeping) { time_elapsed = t }

check_sleeping-swept_example :
    let s = asleep 200000000 in
    (l : Links) × (check_sleeping s
      ≡ ok (record s { links = l; pcb = wake_all (select (due s) (1 ∷ 2 ∷ 3 ∷ [])) s.pcb }))
    × Represents l (swept [] (due s) (1 ∷ 2 ∷ 3 ∷ []) (three_lists sleep))
unfolding get_timer
check_sleeping-swept_example = check_sleeping-swept (asleep 200000000) (three-Represents sleep) refl

-- Only the alarm of the second process goes off.
abbrev second_due : State
second_due = record (kernel (three_links sleep) sleeping) {
  pcb = λ i. record ((kernel (three_links sleep) sleeping).pcb i) {
    alarm_time = if i == 2 then 0 else 10;
  };
}

scheduler-first_example :
    let s = kernel (three_links (QueueId.ready 0)) TaskStatus.ready in
    let L = three_lists (QueueId.ready 0) in
    (l : Links) × (scheduler s ≡ ok (dispatch 1 (record (demote (woken s L)) { links = l })))
    × Represents l (put (requeued (woken s L) (awake s L)) (QueueId.ready 0) (2 ∷ 3 ∷ []))
unfolding suspend
scheduler-first_example =
    scheduler-first (kernel (three_links (QueueId.ready 0)) TaskStatus.ready)
      (three-Represents (QueueId.ready 0)) (omega arith) refl (λ on. three-IsFree (QueueId.ready 0))
      0 1 (2 ∷ 3 ∷ []) (omega arith) (λ j low. absurd (omega arith)) refl

check_sleeping-fault_example : check_sleeping second_due ≡ fault
unfolding get_timer
check_sleeping-fault_example = check_sleeping-fault second_due (three-Represents sleep) refl
