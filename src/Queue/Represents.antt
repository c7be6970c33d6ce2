-- ===== src/Queue/Represents.antt =====
-- What the queues of kernel/sched/queue.c stand for: a list of process indices for each queue.
use os_prj.Prelude.{
  ℕ, ◌<◌, ◌≤◌, ◌≡◌, true, false, none, some, List, [], ◌∷◌, ◌++◌, has-append, has-middle,
  Distinct-middle, arith, has, Distinct, length, length_of_Distinct, Bool-cases, inl, inr,
}
use mathlib.Core.Path.{subst, fun_ext}
use os_prj.Queue.{Ptr, QueueId, queue_eq, queue_eq_of_eq, eq_of_queue_eq, put, Links}
use os_prj.Queue.Chain.{Seg, frame, first, head-first, Seg-inner}

-- The contents of all queues.
abbrev pub Lists : Type 0
Lists = QueueId → List ℕ

-- `NUM_MAX_TASK`
abbrev pub num_max_task : ℕ
num_max_task = 16

-- Every queue is a doubly linked list of distinct blocks of `pcb[1]` to `pcb[15]`, no block stands in
-- two queues, and `pcb[0]`, which is no process, is linked nowhere.
pub record Represents (l : Links) (L : Lists) : Type 0 where
  pub linked : (q : QueueId) → Seg l.prev l.next none (l.queue q).head none (l.queue q).tail (L q)
  pub distinct : (q : QueueId) → Distinct (L q)
  pub apart : (q r : QueueId) (a : ℕ) → has a (L q) ≡ true → has a (L r) ≡ true → q ≡ r
  pub inside : (q : QueueId) (a : ℕ) → has a (L q) ≡ true → (0 < a) × (a < num_max_task)
  pub idle : l.next 0 ≡ none

-- The block stands in no queue.
abbrev pub IsFree : ℕ → Lists → Type 0
IsFree i L = (q : QueueId) → has i (L q) ≡ false

module _ {l : Links} {L : Lists} (R : Represents l L) where
  -- A block of one queue is in no other.
  pub not-has :
      (q r : QueueId) (a : ℕ) → queue_eq q r ≡ false → has a (L q) ≡ true → has a (L r) ≡ false
  not-has q r a other here = elim (Bool-cases (has a (L r))) [
    | inl there ↦ ground (arith, R.apart q r a here there, queue_eq_of_eq q r)
    | inr out ↦ out
  ]

  -- A block that left its queue stands in no queue.
  pub IsFree-append :
      (q : QueueId) (xs : List ℕ) (i : ℕ) (ys : List ℕ)
      → L q ≡ xs ++ i ∷ ys
      → IsFree i (put L q (xs ++ ys))
  IsFree-append q xs i ys e r =
      let here : has i (L q) ≡ true = rw e (has-middle xs i ys) in
      let d : Distinct (xs ++ i ∷ ys) = rw e at (R.distinct q) in
      ground (arith, not-has q r i, Distinct-middle xs i ys d, has-append i xs ys)

  -- The link of a block leads to the block behind it.
  pub next-append :
      (q : QueueId) (xs : List ℕ) (i : ℕ) (ys : List ℕ) → L q ≡ xs ++ i ∷ ys → l.next i ≡ first ys
  next-append q [] i ys e =
      let s : Seg l.prev l.next none (l.queue q).head none (l.queue q).tail (i ∷ ys) =
        rw e at (R.linked q) in
      head-first l.prev l.next ys (some i) (l.next i) (l.queue q).tail s.2
  next-append q (x ∷ xs) i ys e =
      let s : Seg l.prev l.next none (l.queue q).head none (l.queue q).tail (x ∷ xs ++ i ∷ ys) =
        rw e at (R.linked q) in
      (Seg-inner l.prev l.next x xs i ys none (l.queue q).head (l.queue q).tail s).1

  -- The head of a queue is its first block.
  pub head-eq-first : (q : QueueId) → (l.queue q).head ≡ first (L q)
  head-eq-first q =
      head-first l.prev l.next (L q) none (l.queue q).head (l.queue q).tail (R.linked q)

  -- No queue holds more blocks than the table has.
  pub length-le : (q : QueueId) → length (L q) ≤ num_max_task
  length-le q = length_of_Distinct num_max_task (L q) (R.distinct q) λ a h. (R.inside q a h).1

  -- The segment of a queue that a change of the links spares.
  pub linked_frame :
      (prev' next' : ℕ → Ptr) (q : QueueId)
      → ((a : ℕ) → has a (L q) ≡ true → (prev' a ≡ l.prev a) × (next' a ≡ l.next a))
      → Seg prev' next' none (l.queue q).head none (l.queue q).tail (L q)
  linked_frame prev' next' q same =
      frame l.prev l.next prev' next' (L q) none (l.queue q).head none (l.queue q).tail same
        (R.linked q)

-- A change that touches one queue: its new segment, and that the other queues are spared.
module _ {l : Links} {L : Lists} (R : Represents l L) (q : QueueId) (ys : List ℕ) (l' : Links)
    (segment : Seg l'.prev l'.next none (l'.queue q).head none (l'.queue q).tail ys)
    (others : (r : QueueId) → queue_eq q r ≡ false → l'.queue r ≡ l.queue r)
    (spared : (r : QueueId) (a : ℕ)
      → queue_eq q r ≡ false
      → has a (L r) ≡ true
      → (l'.prev a ≡ l.prev a) × (l'.next a ≡ l.next a))
    (idle : l'.next 0 ≡ none) where
  linked_relink :
      (r : QueueId)
      → Seg l'.prev l'.next none (l'.queue r).head none (l'.queue r).tail (put L q ys r)
  linked_relink r = elim (Bool-cases (queue_eq q r)) [
    | inl same ↦ rw (same, ← eq_of_queue_eq q r same) segment
    | inr other ↦
        rw (other, others r other) (linked_frame R l'.prev l'.next r λ a i. spared r a other i)
  ]

  pub relink :
      Distinct ys
      → ((a : ℕ) → has a ys ≡ true → (0 < a) × (a < num_max_task))
      → ((r : QueueId) (a : ℕ) → queue_eq q r ≡ false → has a ys ≡ true → has a (L r) ≡ false)
      → Represents l' (put L q ys)
  relink distinct inside apart = record {
    linked = linked_relink;
    distinct = λ r. ground (arith, R.distinct r);
    apart = λ r s a.
        ground (arith, R.apart r s a, apart r a, apart s a, eq_of_queue_eq q r, eq_of_queue_eq q s);
    inside = λ r a. ground (arith, R.inside r a, inside a);
    idle = idle;
  }

-- Only the contents of each queue matter.
pub Represents-ext :
    {l : Links} (L M : Lists) → ((q : QueueId) → L q ≡ M q) → Represents l L → Represents l M
Represents-ext {l} L M e R = subst (Represents l) (fun_ext e) R
