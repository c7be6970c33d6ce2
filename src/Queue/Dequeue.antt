-- ===== src/Queue/Dequeue.antt =====
-- `queue_dequeue` and `queue_is_empty` of kernel/sched/queue.c
use os_prj.Prelude.{
  ℕ, ◌≡◌, refl, Bool, true, false, none, some, List, [], ◌∷◌, arith, has, Distinct,
}
use os_prj.Run.{ok, fault}
use os_prj.Queue.{
  QueueId, queue_eq_self, put, Links, queue_is_empty, queue_dequeue, set_prev, set_next, set_head,
  set_tail,
}
use os_prj.Queue.Chain.{Seg, frame}
use os_prj.Queue.Represents.{Represents, Lists, not-has, relink}

abbrev pub is_nil : List ℕ → Bool
is_nil [] = true
is_nil (x ∷ xs) = false

module _ {l : Links} {L : Lists} (R : Represents l L) (q : QueueId) where
  is_empty-cases : (xs : List ℕ) → L q ≡ xs → queue_is_empty q l ≡ is_nil xs
  unfolding queue_is_empty
  is_empty-cases [] e =
      let s : Seg l.prev l.next none (l.queue q).head none (l.queue q).tail [] =
        rw e at (R.linked q) in
      ground (arith, s)
  is_empty-cases (x ∷ xs) e =
      let s : Seg l.prev l.next none (l.queue q).head none (l.queue q).tail (x ∷ xs) =
        rw e at (R.linked q) in
      ground (arith, s)

  -- `queue_is_empty` tells whether the queue has no blocks.
  pub queue_is_empty-is_nil : queue_is_empty q l ≡ is_nil (L q)
  queue_is_empty-is_nil = is_empty-cases (L q) refl

  -- Taking a block from an empty queue uses the NULL pointer.
  pub queue_dequeue-nil : L q ≡ [] → queue_dequeue q l ≡ fault
  unfolding queue_dequeue
  queue_dequeue-nil e =
      let s : Seg l.prev l.next none (l.queue q).head none (l.queue q).tail [] =
        rw e at (R.linked q) in
      ground (arith, s)

  module _ (x : ℕ) where
    dequeue-last :
        L q ≡ x ∷ [] → (l' : Links) × (queue_dequeue q l ≡ ok (x, l')) × Represents l' (put L q [])
    unfolding queue_dequeue
    dequeue-last e =
        let s : Seg l.prev l.next none (l.queue q).head none (l.queue q).tail (x ∷ []) =
          rw e at (R.linked q) in
        let l' : Links = set_next x none (set_prev x none (set_head q none (set_tail q none l))) in
        let here : has x (L q) ≡ true = rw e (ground arith) in
        (
          l',
          ground (arith, s),
          relink R q [] l' (ground (arith, queue_eq_self q)) (ground arith)
              (λ r a other h. ground (arith, not-has R q r x other here)) (ground (arith, R.idle))
              tt (λ a h. cc) (λ r a other h. cc),
        )

    dequeue-more :
        (y : ℕ) (xs : List ℕ)
        → L q ≡ x ∷ y ∷ xs
        → (l' : Links) × (queue_dequeue q l ≡ ok (x, l')) × Represents l' (put L q (y ∷ xs))
    unfolding queue_dequeue
    dequeue-more y xs e =
        let s : Seg l.prev l.next none (l.queue q).head none (l.queue q).tail (x ∷ y ∷ xs) =
          rw e at (R.linked q) in
        let d : Distinct (x ∷ y ∷ xs) = rw e at (R.distinct q) in
        let l' : Links =
          set_next x none (set_prev x none (set_prev y none (set_head q (some y) l))) in
        let here : has x (L q) ≡ true = rw e (ground arith) in
        let second : has y (L q) ≡ true = rw e (ground arith) in
        let members : (a : ℕ) → has a (y ∷ xs) ≡ true → has a (L q) ≡ true =
          λ a h. rw e (ground arith) in
        (
          l',
          ground (arith, s),
          relink R q (y ∷ xs) l'
              (ground (
                arith,
                queue_eq_self q,
                s,
                frame l.prev l.next l'.prev l'.next xs (some y) (l.next y) none (l.queue q).tail
                    (λ a h. ground arith) s.2.2,
              ))
              (ground arith)
              (λ r a other h.
                ground (arith, not-has R q r x other here, not-has R q r y other second))
              (ground (arith, R.idle)) (d.1) (λ a h. R.inside q a (members a h))
              (λ r a other h. not-has R q r a other (members a h)),
        )

    -- If the queues are in order, `queue_dequeue` takes the first block from a queue that is not
    -- empty and returns it, and no other queue changes.
    pub queue_dequeue-cons :
        (xs : List ℕ)
        → L q ≡ x ∷ xs
        → (l' : Links) × (queue_dequeue q l ≡ ok (x, l')) × Represents l' (put L q xs)
    queue_dequeue-cons [] e = dequeue-last e
    queue_dequeue-cons (y ∷ ys) e = dequeue-more y ys e
