-- ===== src/Queue/Remove.antt =====
-- `queue_remove` of kernel/sched/queue.c: right at both ends of a queue, and wrong in its middle,
-- where it follows `pcb->next`, the link of `pcb[0]`, in place of the item's own.
use os_prj.Prelude.{
  ℕ, ◌≡◌, ap, ◌∙◌, true, none, some, List, [], ◌∷◌, ◌++◌, arith, has, Distinct, update, has-append,
  has-append_left, has-middle, Distinct-append_left, Distinct-middle, ◌||◌,
}
use os_prj.Run.{ok, fault}
use mathlib.Core.List.{append-nil}
use os_prj.Queue.{
  Ptr, QueueId, queue_eq_self, put, Links, queue_remove, set_prev, set_next, set_head, set_tail,
}
use os_prj.Queue.Chain.{
  Seg, frame, first, last_of, has-last_of, last_of-append, last_of-nil, tail-last_of, Seg-inner,
  Seg-init,
}
use os_prj.Queue.Dequeue.{is_nil}
use os_prj.Queue.Represents.{Represents, Lists, not-has, relink}

module _ {l : Links} {L : Lists} (R : Represents l L) (q : QueueId) (i : ℕ) where
  abbrev Removed : List ℕ → Ptr → Type 0
  Removed ys n = (l' : Links) × (queue_remove q i l ≡ ok (n, l')) × Represents l' (put L q ys)

  remove-only : L q ≡ i ∷ [] → Removed [] none
  unfolding queue_remove
  remove-only e =
      let s : Seg l.prev l.next none (l.queue q).head none (l.queue q).tail (i ∷ []) =
        rw e at (R.linked q) in
      let l' : Links = set_next i none (set_prev i none (set_tail q none (set_head q none l))) in
      let here : has i (L q) ≡ true = rw e (ground arith) in
      (
        l',
        ground (arith, s),
        relink R q [] l' (ground (arith, queue_eq_self q)) (ground arith)
            (λ r a other h. ground (arith, not-has R q r i other here)) (ground (arith, R.idle)) tt
            (λ a h. cc) (λ r a other h. cc),
      )

  remove-first : (y : ℕ) (ys : List ℕ) → L q ≡ i ∷ y ∷ ys → Removed (y ∷ ys) (some y)
  unfolding queue_remove
  remove-first y ys e =
      let s : Seg l.prev l.next none (l.queue q).head none (l.queue q).tail (i ∷ y ∷ ys) =
        rw e at (R.linked q) in
      let d : Distinct (i ∷ y ∷ ys) = rw e at (R.distinct q) in
      let l' : Links =
        set_next i none (set_prev i none (set_prev y none (set_head q (some y) l))) in
      let here : has i (L q) ≡ true = rw e (ground arith) in
      let second : has y (L q) ≡ true = rw e (ground arith) in
      let members : (a : ℕ) → has a (y ∷ ys) ≡ true → has a (L q) ≡ true =
        λ a h. rw e (ground arith) in
      let tail-ne = tail-last_of l.prev l.next y ys (some i) (l.next i) none (l.queue q).tail s.2 in
      (
        l',
        ground (arith, s, tail-ne, has-last_of y ys, d),
        relink R q (y ∷ ys) l'
            (ground (
              arith,
              queue_eq_self q,
              s,
              frame l.prev l.next l'.prev l'.next ys (some y) (l.next y) none (l.queue q).tail
                  (λ a h. ground arith) s.2.2,
            ))
            (ground arith)
            (λ r a other h.
              ground (arith, not-has R q r i other here, not-has R q r y other second))
            (ground (arith, R.idle)) (d.1) (λ a h. R.inside q a (members a h))
            (λ r a other h. not-has R q r a other (members a h)),
      )

  remove-last : (x : ℕ) (xs : List ℕ) → L q ≡ x ∷ xs ++ i ∷ [] → Removed (x ∷ xs) none
  unfolding queue_remove
  remove-last x xs e =
      let z : ℕ = last_of x xs in
      let s : Seg l.prev l.next none (l.queue q).head none (l.queue q).tail (x ∷ xs ++ i ∷ []) =
        rw e at (R.linked q) in
      let d : Distinct (x ∷ xs ++ i ∷ []) = rw e at (R.distinct q) in
      let l' : Links =
        set_next i none (set_prev i none (set_next z none (set_tail q (some z) l))) in
      let links = Seg-inner l.prev l.next x xs i [] none (l.queue q).head (l.queue q).tail s in
      let at_end : (l.queue q).tail ≡ some i =
        tail-last_of l.prev l.next x (xs ++ i ∷ []) none (l.queue q).head none (l.queue q).tail s
        ∙ ap some (last_of-append x xs i [] ∙ last_of-nil i) in
      let here : has i (L q) ≡ true = rw e (has-middle (x ∷ xs) i []) in
      let member : has z (L q) ≡ true =
        rw e (has-append_left z (x ∷ xs) (i ∷ []) (has-last_of x xs)) in
      let members : (a : ℕ) → has a (x ∷ xs) ≡ true → has a (L q) ≡ true =
        λ a h. rw e (has-append_left a (x ∷ xs) (i ∷ []) h) in
      (
        l',
        ground (arith, s, links, at_end, has-append x xs (i ∷ [])),
        relink R q (x ∷ xs) l'
            (rw (queue_eq_self q) (
              frame l.prev (update l.next z none) l'.prev l'.next (x ∷ xs) none (l.queue q).head
                none (some z) (λ a h. ground (arith, Distinct-middle (x ∷ xs) i [] d))
                (Seg-init l.prev l.next x xs i none (l.queue q).head (l.queue q).tail s d)))
            (ground arith)
            (λ r a other h.
              ground (arith, not-has R q r i other here, not-has R q r z other member))
            (ground (arith, R.idle)) (Distinct-append_left (x ∷ xs) (i ∷ []) d)
            (λ a h. R.inside q a (members a h))
            (λ r a other h. not-has R q r a other (members a h)),
      )

  -- If the queues are in order, `queue_remove` of a block in the middle of its queue uses the NULL
  -- pointer `pcb->next`.
  pub queue_remove-middle :
      (x : ℕ) (xs : List ℕ) (y : ℕ) (ys : List ℕ)
      → L q ≡ x ∷ xs ++ i ∷ y ∷ ys
      → queue_remove q i l ≡ fault
  unfolding queue_remove
  queue_remove-middle x xs y ys e =
      let s : Seg l.prev l.next none (l.queue q).head none (l.queue q).tail (x ∷ xs ++ i ∷ y ∷ ys) =
        rw e at (R.linked q) in
      let d : Distinct (x ∷ xs ++ i ∷ y ∷ ys) = rw e at (R.distinct q) in
      let z : ℕ = last_of x xs in
      let links =
        Seg-inner l.prev l.next x xs i (y ∷ ys) none (l.queue q).head (l.queue q).tail s in
      let at_end =
        tail-last_of l.prev l.next x (xs ++ i ∷ y ∷ ys) none (l.queue q).head none (l.queue q).tail
          s in
      let member : has z (L q) ≡ true =
        rw e (has-append_left z (x ∷ xs) (i ∷ y ∷ ys) (has-last_of x xs)) in
      ground (
        arith,
        s,
        links,
        at_end,
        last_of-append x xs i (y ∷ ys),
        last_of-append i [] y ys,
        has-last_of y ys,
        Distinct-middle (x ∷ xs) i (y ∷ ys) d,
        R.idle,
        R.inside q z member,
      )

  -- If the queues are in order, `queue_remove` takes a block at either end of its queue out of it
  -- and returns the block behind it, and no other queue changes.
  pub queue_remove-ends :
      (xs ys : List ℕ)
      → L q ≡ xs ++ i ∷ ys
      → (is_nil xs || is_nil ys) ≡ true
      → (l' : Links) × (queue_remove q i l ≡ ok (first ys, l')) × Represents l' (put L q (xs ++ ys))
  queue_remove-ends [] [] e h = remove-only e
  queue_remove-ends [] (y ∷ ys) e h = remove-first y ys e
  queue_remove-ends (x ∷ xs) [] e h = rw (append-nil xs) (remove-last x xs e)
  queue_remove-ends (x ∷ xs) (y ∷ ys) e h = cc
