-- ===== src/Text/Strcpy.antt =====
-- `strcpy` of libs/string.c.
use os_prj.Prelude.{
  ℕ, zero, suc, ◌+◌, ◌<◌, ◌≡◌, ◌⊎◌, ◌∙◌, refl, true, false, arith, List, [], ◌∷◌, length, ◌==◌,
  ==_self, update, inl, inr,
}
use os_prj.Run.{ok}
use os_prj.Text.{Memory, strcpy}
use os_prj.Text.Copy.{within}
use os_prj.Text.Compare.{IsString}

-- A string does not change when the bytes elsewhere do.
pub IsString-cong :
    (s : List ℕ) (p : ℕ) (m m' : Memory)
    → ((k : ℕ) → within p (length s + 1) k ≡ true → m' k ≡ m k)
    → IsString m p s
    → IsString m' p s
IsString-cong [] p m m' same h = same p (ground arith) ∙ h
IsString-cong (c ∷ s) p m m' same (first, nonzero, rest) = (
  same p (ground arith) ∙ first,
  nonzero,
  IsString-cong s (p + 1) m m' (λ k inside. same k (ground (arith, inside))) rest,
)

-- The strings at `p` and `q` have no byte in common.
abbrev pub AreApart : (len p q : ℕ) → Type 0
AreApart len p q = (p + len < q) ⊎ (q + len < p)

-- On a string that ends in a zero byte `strcpy` ends, given more rounds than the string has bytes,
-- and the string then stands at the destination, with no other byte changed; source and
-- destination have no byte in common.
pub strcpy-copies :
    (s : List ℕ) (n dest src : ℕ) (m : Memory)
    → IsString m src s
    → length s < n
    → AreApart (length s) dest src
    → (m' : Memory) × (strcpy n dest src m ≡ ok m')
      × IsString m' dest s
      × ((k : ℕ) → within dest (length s + 1) k ≡ false → m' k ≡ m k)
unfolding strcpy
strcpy-copies s zero dest src m h fuel apart = absurd (omega arith)
strcpy-copies [] (suc n) dest src m h fuel apart = (
  update m dest 0,
  rw (strcpy, h) refl,
  rw (==_self dest) refl,
  λ k out. ground (arith, out, ==_self k),
)
strcpy-copies (c ∷ s) (suc n) dest src m (first, nonzero, rest) fuel apart =
    let m₁ = update m dest (m src) in
    let rest₁ : IsString m₁ (src + 1) s =
      IsString-cong s (src + 1) m m₁ (λ k inside. untouched k apart inside) rest in
    let (m', run, copied, others) =
      strcpy-copies s n (dest + 1) (src + 1) m₁ rest₁ (omega arith) (next apart) in
    let more : (m src == 0) ≡ false = rw first nonzero in
    let start : m' dest ≡ c = others dest (ground arith) ∙ rw (==_self dest) first in
    (
      m',
      rw (strcpy, more) run,
      (start, nonzero, copied),
      λ k out. others k (ground arith) ∙ ground (arith, out, ==_self k),
    )
  where
    next : AreApart (suc (length s)) dest src → AreApart (length s) (dest + 1) (src + 1)
    next (inl below) = inl (omega arith)
    next (inr above) = inr (omega arith)

    untouched :
        (k : ℕ)
        → AreApart (suc (length s)) dest src
        → within (src + 1) (length s + 1) k ≡ true
        → update m dest (m src) k ≡ m k
    untouched k (inl below) inside = ground (arith, inside)
    untouched k (inr above) inside = ground (arith, inside)
