-- ===== src/System/Placed.antt =====
-- Which status the processes of a queue have.
use os_prj.Prelude.{
  ℕ, ◌≡◌, Bool, true, false, ◌&&◌, not, List, [], ◌∷◌, arith, has, has-append, ◌==◌, eq_of_==,
}
use os_prj.Queue.{QueueId, sleep, queue_eq, eq_of_queue_eq, put}
use os_prj.Queue.Represents.{Lists, IsFree}
use os_prj.Queue.Push.{pushed}
use os_prj.Kernel.{Pcb, TaskStatus, blocked, sleeping}
use os_prj.Sched.Unblock.{drained, wake_all, wake_all-status}
use os_prj.Sched.Sleep.{select, swept}

-- The status of those that stand in a queue.
abbrev pub status_in : QueueId → TaskStatus
status_in (QueueId.ready k) = TaskStatus.ready
status_in sleep = sleeping
status_in _ = blocked

-- Everyone in a queue has the status that belongs to it.
abbrev pub IsPlaced : (ℕ → Pcb) → Lists → Type 0
IsPlaced pcb L = (q : QueueId) (a : ℕ) → has a (L q) ≡ true → (pcb a).status ≡ status_in q

pub pushed-IsPlaced :
    (pcb pcb' : ℕ → Pcb) (L : Lists) (q : QueueId) (i : ℕ)
    → IsPlaced pcb L
    → (pcb' i).status ≡ status_in q
    → ((a : ℕ) → (a == i) ≡ false → (pcb' a).status ≡ (pcb a).status)
    → IsFree i L
    → IsPlaced pcb' (pushed q i L)
pushed-IsPlaced pcb pcb' L q i placed at others free r a h = ground (
  arith,
  has-append a (L q) (i ∷ []),
  placed r a,
  placed q a,
  at,
  others a,
  free r,
  free q,
  eq_of_== a i,
  eq_of_queue_eq q r,
)

pub put-IsPlaced :
    (pcb : ℕ → Pcb) (L : Lists) (q : QueueId) (xs : List ℕ)
    → IsPlaced pcb L
    → ((a : ℕ) → has a xs ≡ true → has a (L q) ≡ true)
    → IsPlaced pcb (put L q xs)
put-IsPlaced pcb L q xs placed fewer r a h = ground (arith, placed r a, fewer a, eq_of_queue_eq q r)

pub drained-IsPlaced :
    (pcb : ℕ → Pcb) (L : Lists) (q : QueueId)
    → ((r : QueueId) (a : ℕ) → queue_eq q r ≡ false → has a (L q) ≡ true → has a (L r) ≡ false)
    → IsPlaced pcb L
    → IsPlaced (wake_all (L q) pcb) (drained q L)
drained-IsPlaced pcb L q apart placed r a h = ground (
  arith,
  has-append a (L r) (L q),
  placed r a,
  apart r a,
  wake_all-status (L q) pcb a,
  eq_of_queue_eq (QueueId.ready 0) r,
)

-- Who is woken from a queue stood in it and passed the test.
pub has-select :
    (a : ℕ) (test : ℕ → Bool) (xs : List ℕ) → has a (select test xs) ≡ (test a && has a xs)
has-select a test [] = ground arith
has-select a test (x ∷ xs) = ground (arith, has-select a test xs, eq_of_== a x)

pub swept-IsPlaced :
    (pcb : ℕ → Pcb) (L : Lists) (test : ℕ → Bool)
    → ((r : QueueId) (a : ℕ)
        → queue_eq sleep r ≡ false
        → has a (L sleep) ≡ true
        → has a (L r) ≡ false)
    → IsPlaced pcb L
    → IsPlaced (wake_all (select test (L sleep)) pcb) (swept [] test (L sleep) L)
swept-IsPlaced pcb L test apart placed r a h = ground (
  arith,
  has-append a (L r) (select test (L sleep)),
  has-select a test (L sleep),
  has-select a (λ b. not (test b)) (L sleep),
  placed r a,
  placed sleep a,
  apart r a,
  wake_all-status (select test (L sleep)) pcb a,
  eq_of_queue_eq (QueueId.ready 0) r,
  eq_of_queue_eq sleep r,
)

-- Everyone in a queue passes the test.
abbrev pub AreAll : (ℕ → Bool) → Lists → Type 0
AreAll test L = (q : QueueId) (a : ℕ) → has a (L q) ≡ true → test a ≡ true

module _ (test : ℕ → Bool) (L : Lists) (all : AreAll test L) where
  pub pushed-AreAll : (q : QueueId) (i : ℕ) → test i ≡ true → AreAll test (pushed q i L)
  pushed-AreAll q i at r a h =
      ground (arith, has-append a (L q) (i ∷ []), all r a, all q a, at, eq_of_== a i)

  pub put-AreAll :
      (q : QueueId) (xs : List ℕ)
      → ((a : ℕ) → has a xs ≡ true → has a (L q) ≡ true)
      → AreAll test (put L q xs)
  put-AreAll q xs fewer r a h = ground (arith, all r a, all q a, fewer a)

  pub drained-AreAll : (q : QueueId) → AreAll test (drained q L)
  drained-AreAll q r a h = ground (arith, has-append a (L r) (L q), all r a, all q a)

  pub swept-AreAll : (due : ℕ → Bool) → AreAll test (swept [] due (L sleep) L)
  swept-AreAll due r a h = ground (
    arith,
    has-append a (L r) (select due (L sleep)),
    has-select a due (L sleep),
    has-select a (λ b. not (due b)) (L sleep),
    all r a,
    all sleep a,
  )
