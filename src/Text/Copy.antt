-- ===== src/Text/Copy.antt =====
-- What the functions of libs/string.c that write memory leave there.
use os_prj.Prelude.{
  ℕ, Bool-cases, ap, inl, inr, zero, suc, ◌+◌, ◌-◌, ◌≤◌, ◌<◌, ◌≡◌, ◌⊎◌, ◌∙◌, refl, Bool, true,
  false, ◌&&◌, arith, ◌==◌, ==_self, eq_of_==, ltb, leb, update, if◌then◌else◌,
}
use os_prj.Text.{Memory, memcpy, memset, strrev_loop, strrev}

-- `k` is one of the `len` addresses from `p` on.
abbrev pub within : (p len k : ℕ) → Bool
within p len k = leb p k && ltb k (p + len)

later :
    (len dest src : ℕ)
    → (dest ≤ src) ⊎ (src + suc len ≤ dest)
    → (dest + 1 ≤ src + 1) ⊎ (src + 1 + len ≤ dest + 1)
later len dest src (inl before) = inl (omega arith)
later len dest src (inr behind) = inr (omega arith)

not_dest :
    (len dest src k : ℕ)
    → (dest ≤ src) ⊎ (src + suc len ≤ dest)
    → dest + 1 ≤ k
    → k < dest + 1 + len
    → (dest == src + (k - dest)) ≡ false
not_dest len dest src k (inl before) above below = ground arith
not_dest len dest src k (inr behind) above below = ground arith

-- `memcpy` copies every byte as it was before and writes nowhere else, if the destination lies
-- before the source or behind all of it.
pub memcpy-copies :
    (len dest src : ℕ) (m : Memory)
    → (dest ≤ src) ⊎ (src + len ≤ dest)
    → (k : ℕ) → memcpy len dest src m k ≡ (if within dest len k then m (src + (k - dest)) else m k)
unfolding memcpy
memcpy-copies zero dest src m apart k = ground arith
memcpy-copies (suc len) dest src m apart k =
    memcpy-copies len (dest + 1) (src + 1) (update m dest (m src)) (later len dest src apart) k
    ∙ elim (Bool-cases (within (dest + 1) len k)) [
      | inl rest ↦
          let above : dest + 1 ≤ k = ground arith in
          let below : k < dest + 1 + len = ground arith in
          let at : src + 1 + (k - (dest + 1)) ≡ src + (k - dest) = omega arith in
          let here : within dest (suc len) k ≡ true = ground arith in
          let other : (dest == src + (k - dest)) ≡ false =
            not_dest len dest src k apart above below in
          rw (rest, here, at, other) refl
      | inr out ↦ elim (Bool-cases (dest == k)) [
        | inl first ↦
            let same : dest ≡ k = eq_of_== dest k first in
            let here : within dest (suc len) k ≡ true = ground arith in
            rw (out, here, first) (ap m (omega arith))
        | inr other ↦
            let away : within dest (suc len) k ≡ false = ground (arith, ==_self k) in
            rw (out, away, other) refl
      ]
    ]

-- `memset` writes the value at the addresses it is given, and nowhere else.
pub memset-fills :
    (len dest val : ℕ) (m : Memory) (k : ℕ)
    → memset len dest val m k ≡ (if within dest len k then val else m k)
unfolding memset
memset-fills zero dest val m k = ground arith
memset-fills (suc len) dest val m k =
    ground (arith, memset-fills len (dest + 1) val (update m dest val) k)

-- `m` between `p` and `q` in the opposite order.
abbrev pub mirrored : (p q : ℕ) → Memory → Memory
mirrored p q m k = if leb p k && leb k q then m (p + q - k) else m k

mirrored-swap :
    (p q : ℕ) (m : Memory) (k : ℕ)
    → p < q
    → mirrored (p + 1) (q - 1) (update (update m p (m q)) q (m p)) k ≡ mirrored p q m k
mirrored-swap p q m k low = elim (Bool-cases (leb (p + 1) k && leb k (q - 1))) [
  | inl inner ↦
      let above : p < k = ground arith in
      let below : k < q = ground arith in
      let at : p + 1 + (q - 1) - k ≡ p + q - k = omega arith in
      let first : (p == p + q - k) ≡ false = ground arith in
      let last : (q == p + q - k) ≡ false = ground arith in
      let here : (leb p k && leb k q) ≡ true = ground arith in
      rw (inner, here, at, first, last) refl
  | inr outer ↦ elim (Bool-cases (q == k)) [
    | inl last ↦
        let same : q ≡ k = eq_of_== q k last in
        let at : p + q - k ≡ p = omega arith in
        let here : (leb p k && leb k q) ≡ true = ground arith in rw (outer, here, last, at) refl
    | inr before ↦ elim (Bool-cases (p == k)) [
      | inl first ↦
          let same : p ≡ k = eq_of_== p k first in
          let at : p + q - k ≡ q = omega arith in
          let here : (leb p k && leb k q) ≡ true = ground arith in
          rw (outer, here, before, first, at) refl
      | inr behind ↦
          let away : (leb p k && leb k q) ≡ false = ground (arith, ==_self k) in
          rw (outer, away, before, behind) refl
    ]
  ]
]

mirrored-point : (p q : ℕ) (m : Memory) (k : ℕ) → q ≤ p → m k ≡ mirrored p q m k
mirrored-point p q m k high = elim (Bool-cases (leb p k && leb k q)) [
  | inl on ↦ let at : p + q - k ≡ k = ground arith in rw (on, at) refl
  | inr off ↦ rw off refl
]

strrev_loop-mirrors :
    (n p q : ℕ) (m : Memory) → q < p + n + n → (k : ℕ) → strrev_loop n p q m k ≡ mirrored p q m k
unfolding strrev_loop
strrev_loop-mirrors zero p q m fuel k = mirrored-point p q m k (omega arith)
strrev_loop-mirrors (suc n) p q m fuel k = elim (Bool-cases (ltb p q)) [
  | inl on ↦ rw on (
      strrev_loop-mirrors n (p + 1) (q - 1) (update (update m p (m q)) q (m p)) (ground arith) k
      ∙ mirrored-swap p q m k (ground arith))
  | inr off ↦ rw off (mirrored-point p q m k (ground arith))
]

-- `strrev` turns around the bytes it is given and writes nowhere else; the first address or the
-- length is not zero.
pub strrev-mirrored :
    (msg msg_length : ℕ) (m : Memory) (k : ℕ)
    → 0 < msg + msg_length
    → strrev msg msg_length m k ≡ mirrored msg (msg + msg_length - 1) m k
unfolding strrev
strrev-mirrored msg msg_length m k some_byte =
    strrev_loop-mirrors msg_length msg (msg + msg_length - 1) m (omega arith) k
