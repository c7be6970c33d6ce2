-- ===== src/Run.antt =====
-- What a piece of kernel code can do besides returning: use an invalid pointer or index, or spin for
-- ever in a `while(1)`.
use mathlib.Core.Path.{◌≡◌, refl}

pub data Run {ℓ} (A : Type ℓ) : Type ℓ where
  -- returns
  ok : A → Run A
  -- dereferences NULL or reads behind an array
  fault : Run A
  -- stays in a loop that nothing ends
  hang : Run A
  -- used up the rounds that the model grants a loop
  out_of_fuel : Run A

-- Code that goes on only when the code before it returned.
infixl 5 ◌>>=◌
abbrev pub ◌>>=◌ {ℓ κ} : {A : Type ℓ} {C : Type κ} → Run A → (A → Run C) → Run C
hang >>= rest = hang
out_of_fuel >>= rest = out_of_fuel
fault >>= rest = fault
ok a >>= rest = rest a

-- Code that returns did so in each of its parts.
pub returned {ℓ κ} :
    {A : Type ℓ} {C : Type κ} (part : Run A) (rest : A → Run C) (c : C)
    → (part >>= rest) ≡ ok c
    → (a : A) × (part ≡ ok a) × (rest a ≡ ok c)
returned (ok a) rest c h = (a, refl, h)
returned fault rest c h = cc
returned hang rest c h = cc
returned out_of_fuel rest c h = cc

pub ok-inj {ℓ} : {A : Type ℓ} {a b : A} → ok a ≡ ok b → a ≡ b
ok-inj h = cc
