-- ===== src/Prelude/Lists.antt =====
-- Lists measured by native numbers, membership of a number in a list, and distinct lists.
use Prim.Native.Nat.{ℕ, zero, suc, ◌+◌, ◌≤◌, ◌<◌}
use mathlib.Core.Path.{◌≡◌, refl}
use mathlib.Core.Bool.{Bool, true, false, ◌||◌}
use mathlib.Core.List.{List, [], ◌∷◌, ◌++◌}
use mathlib.Core.Logic.{◌⊎◌, inl, inr}
use mathlib.Core.Option.{Option, none, some}
use native.Mathlib.Omega.{arith}
use os_prj.Prelude.Tests.{◌==◌, if◌then◌else◌}

module _ {ℓ} {A : Type ℓ} where
  abbrev pub length : List A → ℕ
  length [] = 0
  length (x ∷ xs) = suc (length xs)

  abbrev pub get_elem? : List A → ℕ → Option A
  get_elem? [] i = none
  get_elem? (x ∷ xs) zero = some x
  get_elem? (x ∷ xs) (suc i) = get_elem? xs i

  -- A write out of bounds changes nothing.
  abbrev pub set : List A → ℕ → A → List A
  set [] i v = []
  set (x ∷ xs) zero v = v ∷ xs
  set (x ∷ xs) (suc i) v = x ∷ set xs i v

  abbrev pub replicate : ℕ → A → List A
  replicate zero a = []
  replicate (suc n) a = a ∷ replicate n a

  pub length-append : (xs ys : List A) → length (xs ++ ys) ≡ length xs + length ys
  length-append [] ys = omega arith
  length-append (x ∷ xs) ys = omega (arith, length-append xs ys)

-- A map changed at one key.
abbrev pub update {ℓ} : {A : Type ℓ} → (ℕ → A) → ℕ → A → ℕ → A
update f i v j = if i == j then v else f j

-- Whether the number stands in the list.
abbrev pub has : ℕ → List ℕ → Bool
has a [] = false
has a (x ∷ xs) = (a == x) || has a xs

-- No number stands in the list twice.
abbrev pub Distinct : List ℕ → Type 0
Distinct [] = Unit {0}
Distinct (x ∷ xs) = (has x xs ≡ false) × Distinct xs

pub has-append : (a : ℕ) (xs ys : List ℕ) → has a (xs ++ ys) ≡ (has a xs || has a ys)
has-append a [] ys = refl
has-append a (x ∷ xs) ys = ground (arith, has-append a xs ys)

pub Distinct-snoc : (xs : List ℕ) (i : ℕ) → Distinct xs → has i xs ≡ false → Distinct (xs ++ i ∷ [])
Distinct-snoc [] i d out = (refl, tt)
Distinct-snoc (x ∷ xs) i d out = ground (arith, has-append x xs (i ∷ []), Distinct-snoc xs i)

pub has-append_left : (a : ℕ) (xs ys : List ℕ) → has a xs ≡ true → has a (xs ++ ys) ≡ true
has-append_left a xs ys h = rw (has-append a xs ys, h)

pub has-append_right : (a : ℕ) (xs ys : List ℕ) → has a ys ≡ true → has a (xs ++ ys) ≡ true
has-append_right a xs ys h = ground (arith, has-append a xs ys)

pub has-middle : (xs : List ℕ) (i : ℕ) (ys : List ℕ) → has i (xs ++ i ∷ ys) ≡ true
has-middle xs i ys = has-append_right i xs (i ∷ ys) (ground arith)

pub Distinct-append_left : (xs ys : List ℕ) → Distinct (xs ++ ys) → Distinct xs
Distinct-append_left [] ys d = tt
Distinct-append_left (x ∷ xs) ys d = ground (arith, has-append x xs ys, Distinct-append_left xs ys)

-- A number that stands between two parts of a list of distinct numbers is in neither part.
pub Distinct-middle :
    (xs : List ℕ) (i : ℕ) (ys : List ℕ)
    → Distinct (xs ++ i ∷ ys)
    → (has i xs ≡ false) × (has i ys ≡ false)
Distinct-middle [] i ys d = (refl, d.0)
Distinct-middle (x ∷ xs) i ys d =
    ground (arith, Distinct-middle xs i ys d.1, has-append x xs (i ∷ ys))

-- The list without the number `n`.
without : ℕ → List ℕ → List ℕ
without n [] = []
without n (x ∷ xs) = if x == n then xs else x ∷ without n xs

has-without : (n a : ℕ) (xs : List ℕ) → has a (without n xs) ≡ true → has a xs ≡ true
unfolding without
has-without n a [] h = h
has-without n a (x ∷ xs) h = ground (arith, has-without n a xs)

Distinct-without : (n : ℕ) (xs : List ℕ) → Distinct xs → Distinct (without n xs)
unfolding without
Distinct-without n [] d = tt
Distinct-without n (x ∷ xs) d = ground (arith, Distinct-without n xs, has-without n x xs)

has-without_self : (n : ℕ) (xs : List ℕ) → Distinct xs → has n (without n xs) ≡ false
unfolding without
has-without_self n [] d = refl
has-without_self n (x ∷ xs) d = ground (arith, has-without_self n xs)

length-without : (n : ℕ) (xs : List ℕ) → length xs ≤ suc (length (without n xs))
unfolding without
length-without n [] = omega arith
length-without n (x ∷ xs) = ground (arith, length-without n xs)

-- A list of distinct numbers below `n` has at most `n` entries.
pub length_of_Distinct :
    (n : ℕ) (xs : List ℕ) → Distinct xs → ((a : ℕ) → has a xs ≡ true → a < n) → length xs ≤ n
length_of_Distinct zero [] d below = omega arith
length_of_Distinct zero (x ∷ xs) d below = elim (below x (ground arith)) [ ]
length_of_Distinct (suc n) xs d below = omega (
  arith,
  length-without n xs,
  length_of_Distinct n (without n xs) (Distinct-without n xs d)
      λ a h. ground (arith, below a, has-without n a xs, has-without_self n xs d),
)

pub List-cases {ℓ} :
    {A : Type ℓ} (xs : List A) → (xs ≡ []) ⊎ ((x : A) × (rest : List A) × (xs ≡ x ∷ rest))
List-cases [] = inl refl
List-cases (x ∷ rest) = inr (x, rest, refl)
