-- ===== src/Kernel/Lookup.antt =====
-- The search of the process table by process number (init/main.c and kernel/locking/lock.c).
use os_prj.Prelude.{
  ℕ, zero, suc, ◌+◌, ◌≤◌, ◌<◌, ◌≡◌, refl, Bool, true, false, arith, ℤ, ◌==ℤ◌, ==ℤ_iff, Bool-cases,
  inl, inr, ltb,
}
use os_prj.Run.{ok, fault}
use os_prj.Queue.Represents.{num_max_task}
use os_prj.Kernel.{State, find_pid, lookup_pid}

abbrev has_pid : ℤ → State → ℕ → Bool
has_pid pid s i = (s.pcb i).pid ==ℤ pid

find_pid-hit :
    (pid : ℤ) (s : State) (n j i : ℕ)
    → j ≤ i
    → i < j + n
    → has_pid pid s i ≡ true
    → ((k : ℕ) → j ≤ k → k < i → has_pid pid s k ≡ false)
    → find_pid n j pid s ≡ i
unfolding find_pid
find_pid-hit pid s zero j i low high hit before = absurd (omega arith)
find_pid-hit pid s (suc n) j i low high hit before = elim (Bool-cases (has_pid pid s j)) [
  | inl now ↦ let same : j ≡ i = ground (arith, before j) in rw now same
  | inr later ↦ rw later (
      find_pid-hit pid s n (j + 1) i (ground arith) (omega arith) hit
        λ k above below. before k (omega arith) below)
]

find_pid-miss :
    (pid : ℤ) (s : State) (n j : ℕ)
    → ((k : ℕ) → j ≤ k → k < j + n → has_pid pid s k ≡ false)
    → find_pid n j pid s ≡ j + n
unfolding find_pid
find_pid-miss pid s zero j none_has = omega arith
find_pid-miss pid s (suc n) j none_has =
    let rest =
      find_pid-miss pid s n (j + 1) λ k above below. none_has k (omega arith) (omega arith) in
    rw (none_has j (omega arith) (omega arith)) (omega (arith, rest))

module _ (pid : ℤ) (s : State) where
  -- The search for a process number finds the first block from `pcb[2]` up that has the number.
  pub lookup_pid-first :
      (i : ℕ)
      → 2 ≤ i
      → i < num_max_task
      → (s.pcb i).pid ≡ pid
      → ((k : ℕ) → 2 ≤ k → k < i → ((s.pcb k).pid ==ℤ pid) ≡ false)
      → lookup_pid pid s ≡ ok i
  unfolding lookup_pid
  lookup_pid-first i low high e before =
      rw (find_pid-hit pid s 14 2 i low (omega arith) ((==ℤ_iff (s.pcb i).pid pid).1 e) before)
        (ground arith)

  -- If no block from `pcb[2]` up has the number, the search ends behind the table, and the code
  -- reads there.
  pub lookup_pid-fault :
      ((k : ℕ) → 2 ≤ k → k < num_max_task → ((s.pcb k).pid ==ℤ pid) ≡ false)
      → lookup_pid pid s ≡ fault
  unfolding lookup_pid
  lookup_pid-fault none_has =
      rw (find_pid-miss pid s 14 2 λ k low high. none_has k low (omega arith)) refl

find_pid-cong :
    (pid : ℤ) (s t : State)
    → ((i : ℕ) → (s.pcb i).pid ≡ (t.pcb i).pid)
    → (n j : ℕ) → find_pid n j pid s ≡ find_pid n j pid t
unfolding find_pid
find_pid-cong pid s t same zero j = refl
find_pid-cong pid s t same (suc n) j = rw (same j, find_pid-cong pid s t same n (j + 1)) refl

-- The search reads the numbers of the processes only.
pub lookup_pid-cong :
    (pid : ℤ) (s t : State)
    → ((i : ℕ) → (s.pcb i).pid ≡ (t.pcb i).pid)
    → lookup_pid pid s ≡ lookup_pid pid t
unfolding lookup_pid
lookup_pid-cong pid s t same = rw (find_pid-cong pid s t same 14 2) refl

find_pid-found :
    (pid : ℤ) (s : State) (n j : ℕ)
    → find_pid n j pid s < j + n
    → ((s.pcb (find_pid n j pid s)).pid ==ℤ pid) ≡ true
unfolding find_pid
find_pid-found pid s zero j low = absurd (omega arith)
find_pid-found pid s (suc n) j low = elim (Bool-cases (has_pid pid s j)) [
  | inl now ↦ rw now now
  | inr later ↦
      let low' : find_pid n (j + 1) pid s < j + suc n = rw later at low in
      rw later (find_pid-found pid s n (j + 1) (omega arith))
]

-- What the search finds has the number.
pub lookup_pid-pid :
    (pid : ℤ) (s : State) (i : ℕ)
    → lookup_pid pid s ≡ ok i
    → ((s.pcb i).pid ≡ pid) × (i < num_max_task)
unfolding lookup_pid
lookup_pid-pid pid s i found = elim (Bool-cases (ltb (find_pid 14 2 pid s) num_max_task)) [
  | inl low ↦
      let at : ok (find_pid 14 2 pid s) ≡ ok i = rw low at found in
      let same : find_pid 14 2 pid s ≡ i = cc in
      let below : find_pid 14 2 pid s < 2 + 14 = ground arith in
      let hit = find_pid-found pid s 14 2 below in
      (rw same at ((==ℤ_iff (s.pcb (find_pid 14 2 pid s)).pid pid).0 hit), ground arith)
  | inr high ↦ let at : fault ≡ ok i = rw high at found in absurd cc
]
