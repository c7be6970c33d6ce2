-- ===== src/Queue/Follow.antt =====
-- The blocks of a queue, by the `next` links from its head.
use os_prj.Prelude.{
  arith, Bool, true, ◌&&◌, ◌≤◌, ℕ, zero, suc, ◌≡◌, ◌∙◌, refl, sym, List, [], ◌∷◌, ◌++◌, length,
  none, some,
}
use os_prj.Queue.{Ptr, QueueId, Links}
use os_prj.Queue.Chain.{Seg}
use os_prj.Queue.Represents.{Represents, Lists}

-- The pointer after `k` steps.
abbrev pub follow : (next : ℕ → Ptr) → (k : ℕ) → Ptr → Ptr
follow next zero p = p
follow next (suc k) none = none
follow next (suc k) (some i) = follow next k (next i)

-- Everyone in the list passes the test.
abbrev pub all_of : (ℕ → Bool) → List ℕ → Bool
all_of test [] = true
all_of test (x ∷ xs) = test x && all_of test xs

pub all_of_mono :
    (test more : ℕ → Bool) (xs : List ℕ)
    → ((a : ℕ) → test a ≡ true → more a ≡ true)
    → all_of test xs ≡ true
    → all_of more xs ≡ true
all_of_mono test more [] h good = refl
all_of_mono test more (x ∷ xs) h good =
    let rest : all_of test xs ≡ true = ground arith in
    let here : test x ≡ true = ground arith in rw (h x here, all_of_mono test more xs h rest) refl

Seg-split :
    (test : ℕ → Bool) (prev next : ℕ → Ptr) (k x : ℕ) (ys : List ℕ) (before head tail : Ptr)
    → Seg prev next before head none tail ys
    → follow next k head ≡ some x
    → ((j y : ℕ) → j ≤ k → follow next j head ≡ some y → test y ≡ true)
    → (xs zs : List ℕ) × (ys ≡ xs ++ x ∷ zs) × (length xs ≡ k) × (all_of test (xs ++ x ∷ []) ≡ true)
Seg-split test prev next zero x [] before head tail S at good =
    absurd (let ends = sym (S.0) ∙ at in cc)
Seg-split test prev next (suc k) x [] before head tail S at good =
    let stays : follow next (suc k) head ≡ none = rw (S.0) refl in
    absurd (let ends = sym stays ∙ at in cc)
Seg-split test prev next zero x (y ∷ ys) before head tail S at good =
    let heads : some y ≡ some x = sym (S.0) ∙ at in
    let same : y ≡ x = cc in ([], ys, rw same refl, refl, rw (good 0 x (omega arith) at) refl)
Seg-split test prev next (suc k) x (y ∷ ys) before head tail S at good =
    let down : (j : ℕ) → follow next (suc j) head ≡ follow next j (next y) = λ j. rw (S.0) refl in
    let (xs, zs, e, count, rest) =
      Seg-split test prev next k x ys (some y) (next y) tail S.2 (sym (down k) ∙ at)
        λ j z low there. good (suc j) z (omega arith) (down j ∙ there) in
    (y ∷ xs, zs, rw e refl, rw count refl, rw (good 0 y (omega arith) (S.0), rest) refl)

module _ {l : Links} {L : Lists} (R : Represents l L) (q : QueueId) where
  pub follow-split :
      (test : ℕ → Bool) (k x : ℕ)
      → follow l.next k (l.queue q).head ≡ some x
      → ((j y : ℕ) → j ≤ k → follow l.next j (l.queue q).head ≡ some y → test y ≡ true)
      → (xs zs : List ℕ) × (L q ≡ xs ++ x ∷ zs)
        × (length xs ≡ k)
        × (all_of test (xs ++ x ∷ []) ≡ true)
  follow-split test k x =
      Seg-split test l.prev l.next k x (L q) none (l.queue q).head (l.queue q).tail (R.linked q)

  pub head-none : (l.queue q).head ≡ none → L q ≡ []
  head-none empty = only_nil (L q) (R.linked q)
    where
      only_nil :
          (xs : List ℕ) → Seg l.prev l.next none (l.queue q).head none (l.queue q).tail xs → xs ≡ []
      only_nil [] S = refl
      only_nil (x ∷ xs) S = absurd (let ends = sym empty ∙ S.0 in cc)
