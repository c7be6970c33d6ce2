-- ===== src/Queue/Chain.antt =====
-- Doubly linked segments through the process control blocks of kernel/sched/queue.c.
use os_prj.Prelude.{
  ℕ, ◌≡◌, refl, true, false, none, some, List, [], ◌∷◌, ◌++◌, arith, ◌==◌, has, Distinct, update,
  has-append,
}
use os_prj.Queue.{Ptr}

-- From `h` the `next` fields lead through the blocks `xs` to `n`, and from `t` the `prev` fields lead
-- back through them to `p`.
abbrev pub Seg : (ℕ → Ptr) → (ℕ → Ptr) → (p h n t : Ptr) → List ℕ → Type 0
Seg prev next p h n t [] = (h ≡ n) × (t ≡ p)
Seg prev next p h n t (x ∷ xs) =
    (h ≡ some x) × (prev x ≡ p) × Seg prev next (some x) (next x) n t xs

-- The first block of a list, as a pointer.
abbrev pub first : List ℕ → Ptr
first [] = none
first (x ∷ xs) = some x

-- The last block of a list that is not empty.
pub last_of : ℕ → List ℕ → ℕ
last_of x [] = x
last_of x (y ∷ ys) = last_of y ys

pub has-last_of : (x : ℕ) (xs : List ℕ) → has (last_of x xs) (x ∷ xs) ≡ true
unfolding last_of
has-last_of x [] = ground arith
has-last_of x (y ∷ ys) = ground (arith, has-last_of y ys)

pub last_of-append :
    (x : ℕ) (xs : List ℕ) (i : ℕ) (ys : List ℕ) → last_of x (xs ++ i ∷ ys) ≡ last_of i ys
unfolding last_of
last_of-append x [] i ys = refl
last_of-append x (y ∷ xs) i ys = last_of-append y xs i ys

pub last_of-nil : (x : ℕ) → last_of x [] ≡ x
unfolding last_of
last_of-nil x = refl

module _ (prev next : ℕ → Ptr) where
  -- A segment survives any change that spares its own blocks.
  pub frame :
      (prev' next' : ℕ → Ptr) (xs : List ℕ) (p h n t : Ptr)
      → ((a : ℕ) → has a xs ≡ true → (prev' a ≡ prev a) × (next' a ≡ next a))
      → Seg prev next p h n t xs
      → Seg prev' next' p h n t xs
  frame prev' next' [] p h n t same s = s
  frame prev' next' (x ∷ xs) p h n t same s =
      let here = same x (ground arith) in
      (
        s.0,
        ground arith,
        rw (here.1) (frame prev' next' xs (some x) (next x) n t (λ a i. same a (ground arith)) s.2),
      )

  pub head-first : (xs : List ℕ) (p h t : Ptr) → Seg prev next p h none t xs → h ≡ first xs
  head-first [] p h t s = s.0
  head-first (x ∷ xs) p h t s = s.0

  pub tail-last_of :
      (x : ℕ) (xs : List ℕ) (p h n t : Ptr)
      → Seg prev next p h n t (x ∷ xs)
      → t ≡ some (last_of x xs)
  unfolding last_of
  tail-last_of x [] p h n t s = ground arith
  tail-last_of x (y ∷ ys) p h n t s = tail-last_of y ys (some x) (next x) n t s.2

  -- A block linked behind the last one.
  pub Seg-snoc :
      (x : ℕ) (xs : List ℕ) (i : ℕ) (p h t : Ptr)
      → Seg prev next p h none t (x ∷ xs)
      → Distinct (x ∷ xs)
      → has i (x ∷ xs) ≡ false
      → let z = last_of x xs in
        Seg
          (update prev i (some z))
          (update (update next z (some i)) i none)
          p
          h
          none
          (some i)
          (x ∷ xs ++ i ∷ [])
  unfolding last_of
  Seg-snoc x [] i p h t s d out = ground arith
  Seg-snoc x (y ∷ ys) i p h t s d out =
      let moved : (last_of y ys == x) ≡ false = ground (arith, has-last_of y ys) in
      ground (arith, Seg-snoc y ys i (some x) (next x) t s.2 d.1)

  -- A block behind the first one points back at the block before it and on to the one behind it.
  pub Seg-inner :
      (x : ℕ) (xs : List ℕ) (i : ℕ) (ys : List ℕ) (p h t : Ptr)
      → Seg prev next p h none t (x ∷ xs ++ i ∷ ys)
      → (prev i ≡ some (last_of x xs)) × (next i ≡ first ys)
  unfolding last_of
  Seg-inner x [] i [] p h t s = ground arith
  Seg-inner x [] i (y ∷ ys) p h t s = ground arith
  Seg-inner x (y ∷ xs) i ys p h t s = Seg-inner y xs i ys (some x) (next x) t s.2

  -- A segment without its last block.
  pub Seg-init :
      (x : ℕ) (xs : List ℕ) (i : ℕ) (p h t : Ptr)
      → Seg prev next p h none t (x ∷ xs ++ i ∷ [])
      → Distinct (x ∷ xs ++ i ∷ [])
      → let z = last_of x xs in Seg prev (update next z none) p h none (some z) (x ∷ xs)
  unfolding last_of
  Seg-init x [] i p h t s d = ground arith
  Seg-init x (y ∷ xs) i p h t s d =
      let moved : (last_of y xs == x) ≡ false =
        ground (arith, has-last_of y xs, has-append x (y ∷ xs) (i ∷ [])) in
      ground (arith, Seg-init y xs i (some x) (next x) t s.2 d.1)
