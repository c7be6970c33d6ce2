-- ===== src/Queue.antt =====
-- kernel/sched/queue.c: doubly linked queues of process control blocks. The links are the fields
-- `prev` and `next` of the blocks themselves, so a block can stand in one queue at a time. A pointer
-- to a block is the block's index in `pcb[]`, and NULL is `none`. `Links` is the part of memory that
-- this file's functions touch: the two link fields of every block and every `queue_t`.
pub mod Follow
pub mod Chain
pub mod Represents
pub mod Push
pub mod Dequeue
pub mod Remove
use os_prj.Prelude.{
  ℕ, ◌≡◌, refl, Bool, true, false, ◌&&◌, Option, none, some, arith, ◌==◌, ==_self, update,
  if◌then◌else◌, eq_of_==, ap,
}
use os_prj.Run.{Run, ok, fault, ◌>>=◌}

-- A pointer to a process control block.
abbrev pub Ptr : Type 0
Ptr = Option ℕ

abbrev pub ptr_eq : Ptr → Ptr → Bool
ptr_eq none none = true
ptr_eq (some i) (some j) = i == j
ptr_eq _ _ = false

-- `queue_t`
pub record Queue : Type 0 where
  pub head : Ptr
  pub tail : Ptr

-- The addresses of the kernel's queues: `ready_queue_array + k`, `sleep_queue`, the waiting queue of
-- `pcb[i]`, and the queues inside the synchronisation objects.
pub data QueueId : Type 0 where
  ready : ℕ → QueueId
  sleep : QueueId
  waiting : ℕ → QueueId
  of_mutex : ℕ → QueueId
  of_semaphore : ℕ → QueueId
  of_barrier : ℕ → QueueId
  of_condition : ℕ → QueueId

abbrev pub queue_eq : QueueId → QueueId → Bool
queue_eq (ready i) (ready j) = i == j
queue_eq sleep sleep = true
queue_eq (waiting i) (waiting j) = i == j
queue_eq (of_mutex i) (of_mutex j) = i == j
queue_eq (of_semaphore i) (of_semaphore j) = i == j
queue_eq (of_barrier i) (of_barrier j) = i == j
queue_eq (of_condition i) (of_condition j) = i == j
queue_eq _ _ = false

pub queue_eq_self : (q : QueueId) → queue_eq q q ≡ true
queue_eq_self (ready i) = ==_self i
queue_eq_self sleep = refl
queue_eq_self (waiting i) = ==_self i
queue_eq_self (of_mutex i) = ==_self i
queue_eq_self (of_semaphore i) = ==_self i
queue_eq_self (of_barrier i) = ==_self i
queue_eq_self (of_condition i) = ==_self i

pub queue_eq_of_eq : (q r : QueueId) → q ≡ r → queue_eq q r ≡ true
queue_eq_of_eq q r e = rw e (queue_eq_self r)

pub eq_of_queue_eq : (q r : QueueId) → queue_eq q r ≡ true → q ≡ r
eq_of_queue_eq (ready i) (ready j) h = ap ready (eq_of_== i j h)
eq_of_queue_eq sleep sleep h = refl
eq_of_queue_eq (waiting i) (waiting j) h = ap waiting (eq_of_== i j h)
eq_of_queue_eq (of_mutex i) (of_mutex j) h = ap of_mutex (eq_of_== i j h)
eq_of_queue_eq (of_semaphore i) (of_semaphore j) h = ap of_semaphore (eq_of_== i j h)
eq_of_queue_eq (of_barrier i) (of_barrier j) h = ap of_barrier (eq_of_== i j h)
eq_of_queue_eq (of_condition i) (of_condition j) h = ap of_condition (eq_of_== i j h)
eq_of_queue_eq _ _ h = cc

pub queue_eq_comm : (q r : QueueId) → queue_eq q r ≡ queue_eq r q
queue_eq_comm q r =
    ground (arith, eq_of_queue_eq q r, eq_of_queue_eq r q, queue_eq_of_eq q r, queue_eq_of_eq r q)

-- A map from queues changed at one of them.
abbrev pub put {ℓ} : {A : Type ℓ} → (QueueId → A) → QueueId → A → QueueId → A
put f q v r = if queue_eq q r then v else f r

pub record Links : Type 0 where
  pub prev : ℕ → Ptr
  pub next : ℕ → Ptr
  pub queue : QueueId → Queue

abbrev pub set_head : QueueId → Ptr → Links → Links
set_head q p l = record l { queue = put l.queue q (record (l.queue q) { head = p }) }

abbrev pub set_tail : QueueId → Ptr → Links → Links
set_tail q p l = record l { queue = put l.queue q (record (l.queue q) { tail = p }) }

abbrev pub set_next : ℕ → Ptr → Links → Links
set_next i p l = record l { next = update l.next i p }

abbrev pub set_prev : ℕ → Ptr → Links → Links
set_prev i p l = record l { prev = update l.prev i p }

-- `*p`: a fault at NULL.
abbrev pub deref : Ptr → Run ℕ
deref none = fault
deref (some i) = ok i

unfoldable pub queue_init : QueueId → Links → Links
queue_init q l = set_head q none (set_tail q none l)

unfoldable pub queue_is_empty : QueueId → Links → Bool
queue_is_empty q l = elim (l.queue q).head [ none ↦ true | some i ↦ false ]

unfoldable pub queue_push : QueueId → ℕ → Links → Run Links
queue_push q item l = elim (l.queue q).head [
  | none ↦
      let l = set_head q (some item) l in
      let l = set_tail q (some item) l in ok (set_prev item none (set_next item none l))
  | some _ ↦ do
    last ← deref (l.queue q).tail
    let l = set_next last (some item) l
    let l = set_next item none l
    let l = set_prev item (l.queue q).tail l
    ok (set_tail q (some item) l)
]

-- The head of the queue leaves it: `head = head->next; head->prev = NULL`.
abbrev pub drop_head : QueueId → Ptr → Links → Run Links
drop_head q new l = do let l = set_head q new l; h ← deref new; ok (set_prev h none l)

unfoldable pub queue_dequeue : QueueId → Links → Run (ℕ × Links)
queue_dequeue q l = do
  temp ← deref (l.queue q).head
  l ← elim (l.next temp) [
    | none ↦ ok (set_head q none (set_tail q none l))
    | some n ↦ drop_head q (some n) l
  ]
  ok (temp, set_next temp none (set_prev temp none l))

-- The second pointer of the last branch is `pcb->next`, the link of `pcb[0]`, as in the source.
unfoldable pub queue_remove : QueueId → ℕ → Links → Run (Ptr × Links)
queue_remove q item l = do
  let next = l.next item
  l' ←
      if ptr_eq (some item) (l.queue q).head && ptr_eq (some item) (l.queue q).tail
      then ok (set_tail q none (set_head q none l))
      else if ptr_eq (some item) (l.queue q).head
      then drop_head q (l.next item) l
      else if ptr_eq (some item) (l.queue q).tail
      then (do
        let l = set_tail q (l.prev item) l
        t ← deref (l.queue q).tail
        ok (set_next t none l))
      else (do
        before ← deref (l.prev item)
        let l = set_next before (l.next item) l
        after ← deref (l.next 0)
        ok (set_prev after (l.prev item) l))
  ok (next, set_next item none (set_prev item none l'))
