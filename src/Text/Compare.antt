-- ===== src/Text/Compare.antt =====
-- What the functions of libs/string.c that look for the zero byte find.
use os_prj.Prelude.{
  ℕ, zero, suc, ◌+◌, ◌<◌, ◌≡◌, refl, Bool, true, false, ◌&&◌, arith, List, [], ◌∷◌, length, ◌==◌,
  if◌then◌else◌, pos, negsuc, Bool-cases, inl, inr, ◌∙◌, ap, ℤ,
}
use mathlib.Core.Path.{subst}
use os_prj.Run.{ok}
use os_prj.Text.{Memory, strlen_loop, strlen, strcmp, streq}

-- The bytes from `p` on are those of the string, none of them zero, and a zero byte.
abbrev pub IsString : Memory → (p : ℕ) → List ℕ → Type 0
IsString m p [] = m p ≡ 0
IsString m p (c ∷ s) = (m p ≡ c) × ((c == 0) ≡ false) × IsString m (p + 1) s

strlen_loop-length :
    (s : List ℕ) (n src i : ℕ) (m : Memory)
    → IsString m (src + i) s
    → length s < n
    → strlen_loop n src i m ≡ ok (i + length s)
unfolding strlen_loop
strlen_loop-length s zero src i m h fuel = absurd (omega arith)
strlen_loop-length [] (suc n) src i m h fuel = rw (strlen_loop, h) (ap ok (omega arith))
strlen_loop-length (c ∷ s) (suc n) src i m (first, nonzero, rest) fuel =
    rw (strlen_loop, first, nonzero)
      (strlen_loop-length s n src (i + 1) m (subst (λ p. IsString m p s) (omega arith) rest)
          (omega arith)
        ∙ ap ok (omega arith))

-- `strlen` is the number of bytes before the zero byte, and ends when it is given more rounds.
pub strlen-length :
    (s : List ℕ) (n src : ℕ) (m : Memory)
    → IsString m src s
    → length s < n
    → strlen n src m ≡ ok (length s)
unfolding strlen
strlen-length s n src m h fuel =
    strlen_loop-length s n src 0 m (subst (λ p. IsString m p s) (omega arith) h) fuel
    ∙ ap ok (omega arith)

-- Equality of strings.
abbrev pub list_eq : List ℕ → List ℕ → Bool
list_eq [] [] = true
list_eq (a ∷ s) (b ∷ t) = (a == b) && list_eq s t
list_eq _ _ = false

-- On two strings that end in a zero byte `streq` ends, given more rounds than the first has bytes,
-- and returns 1 exactly if they are equal.
pub streq-list_eq :
    (s t : List ℕ) (n p q : ℕ) (m : Memory)
    → IsString m p s
    → IsString m q t
    → length s < n
    → streq n p q m ≡ ok (if list_eq s t then pos 1 else pos 0)
unfolding streq
streq-list_eq s t zero p q m hs ht fuel = absurd (omega arith)
streq-list_eq [] [] (suc n) p q m hs ht fuel =
    let end_s : (m p == 0) ≡ true = rw hs refl in
    let end_t : (m q == 0) ≡ true = rw ht refl in rw (streq, end_s, end_t, end_s) refl
streq-list_eq [] (b ∷ t) (suc n) p q m hs ht fuel =
    let end_s : (m p == 0) ≡ true = rw hs refl in
    let more_t : (m q == 0) ≡ false = rw (ht.0) (ht.1) in rw (streq, end_s, more_t, end_s) refl
streq-list_eq (a ∷ s) [] (suc n) p q m hs ht fuel =
    let more_s : (m p == 0) ≡ false = rw (hs.0) (hs.1) in
    let end_t : (m q == 0) ≡ true = rw ht refl in rw (streq, more_s, end_t, more_s) refl
streq-list_eq (a ∷ s) (b ∷ t) (suc n) p q m hs ht fuel = elim (Bool-cases (a == b)) [
  | inl same ↦
      rw (streq, hs.0, hs.1, ht.0, ht.1, same)
        (streq-list_eq s t n (p + 1) (q + 1) m (hs.2) (ht.2) (omega arith))
  | inr differ ↦
      let more_s : (m p == 0) ≡ false = rw (hs.0) (hs.1) in
      let more_t : (m q == 0) ≡ false = rw (ht.0) (ht.1) in
      let apart : (m p == m q) ≡ false = rw (hs.0, ht.0) differ in
      rw (streq, more_s, more_t, apart, more_s, differ) refl
]

-- What `strcmp` tells of two strings: 0 for equal ones, -1 if the first is a proper beginning of the
-- second, and 1 otherwise.
abbrev pub order_of : List ℕ → List ℕ → ℤ
order_of [] [] = pos 0
order_of [] (b ∷ t) = negsuc 0
order_of (a ∷ s) [] = pos 1
order_of (a ∷ s) (b ∷ t) = if a == b then order_of s t else pos 1

-- On two strings that end in a zero byte `strcmp` ends, given more rounds than the first has
-- bytes, and returns 0 for equal ones, -1 if the first is a proper beginning of the second, and 1
-- otherwise.
pub strcmp-order_of :
    (s t : List ℕ) (n p q : ℕ) (m : Memory)
    → IsString m p s
    → IsString m q t
    → length s < n
    → strcmp n p q m ≡ ok (order_of s t)
unfolding strcmp
strcmp-order_of s t zero p q m hs ht fuel = absurd (omega arith)
strcmp-order_of [] [] (suc n) p q m hs ht fuel =
    let end_s : (m p == 0) ≡ true = rw hs refl in
    let end_t : (m q == 0) ≡ true = rw ht refl in rw (strcmp, end_s, end_t, end_s) refl
strcmp-order_of [] (b ∷ t) (suc n) p q m hs ht fuel =
    let end_s : (m p == 0) ≡ true = rw hs refl in
    let more_t : (m q == 0) ≡ false = rw (ht.0) (ht.1) in rw (strcmp, end_s, more_t, end_s) refl
strcmp-order_of (a ∷ s) [] (suc n) p q m hs ht fuel =
    let more_s : (m p == 0) ≡ false = rw (hs.0) (hs.1) in
    let end_t : (m q == 0) ≡ true = rw ht refl in rw (strcmp, more_s, end_t, more_s) refl
strcmp-order_of (a ∷ s) (b ∷ t) (suc n) p q m hs ht fuel = elim (Bool-cases (a == b)) [
  | inl same ↦
      rw (strcmp, hs.0, hs.1, ht.0, ht.1, same)
        (strcmp-order_of s t n (p + 1) (q + 1) m (hs.2) (ht.2) (omega arith))
  | inr differ ↦
      let more_s : (m p == 0) ≡ false = rw (hs.0) (hs.1) in
      let more_t : (m q == 0) ≡ false = rw (ht.0) (ht.1) in
      let apart : (m p == m q) ≡ false = rw (hs.0, ht.0) differ in
      rw (strcmp, more_s, more_t, apart, more_s, differ) refl
]
