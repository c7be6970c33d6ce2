-- ===== src/Prelude/Int.antt =====
-- The C type `int` as signed integers over the native numbers.
use Prim.Native.Nat.{ℕ, suc, ◌+◌, ◌-◌}
use mathlib.Core.Path.{◌≡◌}
use mathlib.Core.Bool.{Bool, true, false}
use mathlib.Core.Logic.{◌↔◌}
use native.Mathlib.Omega.{arith}
use os_prj.Prelude.Tests.{ltb, leb, ◌==◌, if◌then◌else◌}

-- `negsuc n` is -(n + 1).
pub data ℤ : Type 0 where
  pos : ℕ → ℤ
  negsuc : ℕ → ℤ

abbrev pub pos_part : ℤ → ℕ
pos_part (pos n) = n
pos_part (negsuc n) = 0

abbrev pub neg_part : ℤ → ℕ
neg_part (pos n) = 0
neg_part (negsuc n) = suc n

-- a - b, as an integer.
abbrev pub sub_ℕ : ℕ → ℕ → ℤ
sub_ℕ a b = if leb b a then pos (a - b) else negsuc (b - a - 1)

infixl 65 ◌+ℤ◌ ◌-ℤ◌
infix 50 ◌==ℤ◌
unfoldable pub ◌+ℤ◌ : ℤ → ℤ → ℤ
a +ℤ b = sub_ℕ (pos_part a + pos_part b) (neg_part a + neg_part b)

unfoldable pub ◌-ℤ◌ : ℤ → ℤ → ℤ
a -ℤ b = sub_ℕ (pos_part a + neg_part b) (neg_part a + pos_part b)

abbrev pub ltb_ℤ : ℤ → ℤ → Bool
ltb_ℤ a b = ltb (pos_part a + neg_part b) (pos_part b + neg_part a)

abbrev pub leb_ℤ : ℤ → ℤ → Bool
leb_ℤ a b = leb (pos_part a + neg_part b) (pos_part b + neg_part a)

abbrev pub ◌==ℤ◌ : ℤ → ℤ → Bool
a ==ℤ b = (pos_part a + neg_part b) == (pos_part b + neg_part a)

pub ==ℤ_iff : (a b : ℤ) → ((a ==ℤ b) ≡ true) ↔ (a ≡ b)
==ℤ_iff a b = ground arith

-- Counting up and down past zero.
pub incr_below :
    (v : ℤ) (n : ℕ)
    → neg_part v ≡ suc n
    → (leb_ℤ (v +ℤ pos 1) (pos 0) ≡ true) × (neg_part (v +ℤ pos 1) ≡ n)
unfolding ◌+ℤ◌
incr_below (pos a) n h = absurd (omega arith)
incr_below (negsuc a) n h = ground arith

pub incr_above :
    (v : ℤ) → neg_part v ≡ 0 → (leb_ℤ (v +ℤ pos 1) (pos 0) ≡ false) × (neg_part (v +ℤ pos 1) ≡ 0)
unfolding ◌+ℤ◌
incr_above (pos a) h = ground arith
incr_above (negsuc a) h = absurd (omega arith)

pub decr_below :
    (v : ℤ) → ltb_ℤ (v -ℤ pos 1) (pos 0) ≡ true → neg_part (v -ℤ pos 1) ≡ neg_part v + 1
unfolding ◌-ℤ◌
decr_below (pos a) h = ground arith
decr_below (negsuc a) h = ground arith

pub decr_above :
    (v : ℤ) → ltb_ℤ (v -ℤ pos 1) (pos 0) ≡ false → (neg_part (v -ℤ pos 1) ≡ 0) × (neg_part v ≡ 0)
unfolding ◌-ℤ◌
decr_above (pos a) h = ground arith
decr_above (negsuc a) h = ground arith

pub incr_pos : (n : ℕ) → pos n +ℤ pos 1 ≡ pos (n + 1)
unfolding ◌+ℤ◌
incr_pos n = ground arith

pub decr_pos : (n : ℕ) → pos (suc n) -ℤ pos 1 ≡ pos n
unfolding ◌-ℤ◌
decr_pos n = ground arith

pub ltb_ℤ-incr : (a b : ℤ) → ltb_ℤ a b ≡ true → ltb_ℤ a (b +ℤ pos 1) ≡ true
unfolding ◌+ℤ◌
ltb_ℤ-incr a b h = ground arith

pub ltb_ℤ-incr_self : (a : ℤ) → ltb_ℤ a (a +ℤ pos 1) ≡ true
unfolding ◌+ℤ◌
ltb_ℤ-incr_self a = ground arith

pub ltb_ℤ-irrefl : (a : ℤ) → ltb_ℤ a a ≡ false
ltb_ℤ-irrefl a = ground arith
