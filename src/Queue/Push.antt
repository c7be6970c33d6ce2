-- ===== src/Queue/Push.antt =====
-- `queue_push` of kernel/sched/queue.c
use os_prj.Prelude.{
  ℕ, ◌<◌, ◌≡◌, refl, true, false, none, some, List, [], ◌∷◌, ◌++◌, arith, has, Distinct, has-append,
  Distinct-snoc,
}
use os_prj.Run.{ok}
use os_prj.Queue.{
  QueueId, queue_eq_self, put, Links, queue_push, set_prev, set_next, set_head, set_tail,
}
use os_prj.Queue.Chain.{Seg, last_of, has-last_of, tail-last_of, Seg-snoc}
use os_prj.Queue.Represents.{Represents, Lists, IsFree, num_max_task, not-has, relink}

-- The contents after `i` was pushed on `q`.
abbrev pub pushed : QueueId → ℕ → Lists → Lists
pushed q i L = put L q (L q ++ i ∷ [])

module _ {l : Links} {L : Lists} (R : Represents l L) (q : QueueId) (i : ℕ) (free : IsFree i L)
    (low : 0 < i) (high : i < num_max_task) where
  push-nil : L q ≡ [] → (l' : Links) × (queue_push q i l ≡ ok l') × Represents l' (pushed q i L)
  unfolding queue_push
  push-nil e =
      let s : Seg l.prev l.next none (l.queue q).head none (l.queue q).tail [] =
        rw e at (R.linked q) in
      let l' : Links =
        set_prev i none (set_next i none (set_tail q (some i) (set_head q (some i) l))) in
      (
        l',
        ground (arith, s),
        rw e (
            relink R q (i ∷ []) l' (ground (arith, queue_eq_self q)) (ground arith)
              (λ r a other h. ground (arith, free r)) (ground (arith, R.idle)) (ground arith)
              (λ a h. ground arith) (λ r a other h. ground (arith, free r))),
      )

  push-cons :
      (x : ℕ) (xs : List ℕ)
      → L q ≡ x ∷ xs
      → (l' : Links) × (queue_push q i l ≡ ok l') × Represents l' (pushed q i L)
  unfolding queue_push
  push-cons x xs e =
      let z : ℕ = last_of x xs in
      let s : Seg l.prev l.next none (l.queue q).head none (l.queue q).tail (x ∷ xs) =
        rw e at (R.linked q) in
      let at_end = tail-last_of l.prev l.next x xs none (l.queue q).head none (l.queue q).tail s in
      let member : has z (L q) ≡ true = rw e (has-last_of x xs) in
      let d : Distinct (x ∷ xs) = rw e at (R.distinct q) in
      let out : has i (x ∷ xs) ≡ false = rw e at (free q) in
      let l' : Links =
        set_tail q (some i) (set_prev i (some z) (set_next i none (set_next z (some i) l))) in
      (
        l',
        ground (arith, s, at_end),
        relink R q (L q ++ i ∷ []) l'
            (rw e (
              rw (queue_eq_self q)
                (Seg-snoc l.prev l.next x xs i none (l.queue q).head (l.queue q).tail s d out)))
            (ground arith) (λ r a other h. ground (arith, free r, not-has R q r z other member))
            (ground (arith, R.idle, R.inside q z member))
            (Distinct-snoc (L q) i (R.distinct q) (free q))
            (λ a h. ground (arith, has-append a (L q) (i ∷ []), R.inside q a))
            (λ r a other h.
              ground (arith, free r, has-append a (L q) (i ∷ []), not-has R q r a other)),
      )

  -- The contents of the queue decide which of the two cases it is.
  push-cases :
      (xs : List ℕ)
      → L q ≡ xs
      → (l' : Links) × (queue_push q i l ≡ ok l') × Represents l' (pushed q i L)
  push-cases [] e = push-nil e
  push-cases (x ∷ xs) e = push-cons x xs e

  -- If the queues are in order, `queue_push` puts a block of `pcb[1]` to `pcb[15]` that stands in
  -- no queue at the end of the queue, and no other queue changes.
  pub queue_push-snoc : (l' : Links) × (queue_push q i l ≡ ok l') × Represents l' (pushed q i L)
  queue_push-snoc = push-cases (L q) refl
