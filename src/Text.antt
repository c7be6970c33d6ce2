-- ===== src/Text.antt =====
-- libs/string.c: the functions on memory and on strings that end in a zero byte. Memory is a
-- function from addresses to bytes, and a loop that looks for the zero byte runs on fuel.
pub mod Copy
pub mod Compare
pub mod Strcpy
use os_prj.Prelude.{
  ℕ, zero, suc, ◌+◌, ◌-◌, Bool, true, false, ◌&&◌, not, ◌==◌, ltb, ℤ, pos, negsuc, update,
  if◌then◌else◌,
}
use os_prj.Run.{Run, ok, out_of_fuel}

abbrev pub Memory : Type 0
Memory = ℕ → ℕ

unfoldable pub strlen_loop : ℕ → (src i : ℕ) → Memory → Run ℕ
strlen_loop zero src i m = out_of_fuel
strlen_loop (suc n) src i m = elim (m (src + i) == 0) [
  | true ↦ ok i
  | false ↦ strlen_loop n src (i + 1) m
]

unfoldable pub strlen : ℕ → (src : ℕ) → Memory → Run ℕ
strlen n src m = strlen_loop n src 0 m

unfoldable pub memcpy : (len dest src : ℕ) → Memory → Memory
memcpy zero dest src m = m
memcpy (suc len) dest src m = memcpy len (dest + 1) (src + 1) (update m dest (m src))

unfoldable pub memset : (len dest val : ℕ) → Memory → Memory
memset zero dest val m = m
memset (suc len) dest val m = memset len (dest + 1) val (update m dest val)

unfoldable pub bzero : (len dest : ℕ) → Memory → Memory
bzero len dest m = memset len dest 0 m

-- `*str1 && *str2 && (*str1 == *str2)`
abbrev pub both_equal : (str1 str2 : ℕ) → Memory → Bool
both_equal str1 str2 m = not (m str1 == 0) && not (m str2 == 0) && (m str1 == m str2)

-- What `strcmp` returns where its loop stopped.
abbrev pub compared : (str1 str2 : ℕ) → Memory → ℤ
compared str1 str2 m =
    if (m str1 == 0) && (m str2 == 0) then pos 0 else if m str1 == 0 then negsuc 0 else pos 1

unfoldable pub strcmp : ℕ → (str1 str2 : ℕ) → Memory → Run ℤ
strcmp zero str1 str2 m = out_of_fuel
strcmp (suc n) str1 str2 m = elim (both_equal str1 str2 m) [
  | true ↦ strcmp n (str1 + 1) (str2 + 1) m
  | false ↦ ok (compared str1 str2 m)
]

-- The memory after the copy; the function returns `dest`.
unfoldable pub strcpy : ℕ → (dest src : ℕ) → Memory → Run Memory
strcpy zero dest src m = out_of_fuel
strcpy (suc n) dest src m = elim (m src == 0) [
  | true ↦ ok (update m dest 0)
  | false ↦ strcpy n (dest + 1) (src + 1) (update m dest (m src))
]

unfoldable pub streq : ℕ → (str1 str2 : ℕ) → Memory → Run ℤ
streq zero str1 str2 m = out_of_fuel
streq (suc n) str1 str2 m = elim (both_equal str1 str2 m && not (m str1 == 0)) [
  | true ↦ streq n (str1 + 1) (str2 + 1) m
  | false ↦ ok (if (m str1 == 0) && (m str2 == 0) then pos 1 else pos 0)
]

-- `for (; q > p; p++, q--)`, with the rounds left.
unfoldable pub strrev_loop : ℕ → (p q : ℕ) → Memory → Memory
strrev_loop zero p q m = m
strrev_loop (suc n) p q m =
    let rest = strrev_loop n (p + 1) (q - 1) (update (update m p (m q)) q (m p)) in
    if ltb p q then rest else m

unfoldable pub strrev : (msg msg_length : ℕ) → Memory → Memory
strrev msg msg_length m = strrev_loop msg_length msg (msg + msg_length - 1) m
