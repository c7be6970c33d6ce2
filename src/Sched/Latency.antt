-- ===== src/Sched/Latency.antt =====
-- `latency` of kernel/sched/time.c, which no function of the kernel calls: it waits for the clock, which the
-- timer interrupt moves between two of its readings.
use os_prj.Prelude.{
  ℕ, zero, suc, ◌+◌, ◌-◌, ◌/◌, ◌%◌, ◌^◌, ◌≤◌, ◌<◌, ◌≡◌, ◌∙◌, refl, true, false, arith, ltb,
  if◌then◌else◌,
}
use os_prj.Run.{Run, ok, out_of_fuel}
use os_prj.Kernel.{State}
use os_prj.Sched.{get_timer}
use os_prj.Sched.Sleep.{due}

-- `get_timer() - begin_time`, in words of 32 bits, by what `time_elapsed` is at the two readings.
abbrev pub waited : (before now : ℕ) → ℕ
waited before now = (now / 10000000 + 2 ^ 32 - before / 10000000) % 2 ^ 32

-- The loop from the reading `k` on: which reading ends it.
unfoldable pub latency_loop : (rounds : ℕ) → (clock : ℕ → ℕ) → (time k : ℕ) → Run ℕ
latency_loop zero clock time k = out_of_fuel
latency_loop (suc n) clock time k =
    let rest = latency_loop n clock time (k + 1) in
    if ltb (waited (clock 0) (clock k)) time then rest else ok k

unfoldable pub latency : (rounds : ℕ) → (clock : ℕ → ℕ) → (time : ℕ) → Run ℕ
latency rounds clock time = latency_loop rounds clock time 1

latency_loop-first :
    (rounds : ℕ) (clock : ℕ → ℕ) (time n k : ℕ)
    → n < rounds
    → ((j : ℕ) → j < n → waited (clock 0) (clock (k + j)) < time)
    → time ≤ waited (clock 0) (clock (k + n))
    → latency_loop rounds clock time k ≡ ok (k + n)
unfolding latency_loop
latency_loop-first zero clock time n k fuel early late = absurd (omega (arith, fuel))
latency_loop-first (suc r) clock time zero k fuel early late =
    let same : k + 0 ≡ k = omega arith in
    let now : time ≤ waited (clock 0) (clock k) = (rw same at late) in
    let ends : ltb (waited (clock 0) (clock k)) time ≡ false = ground (arith, now) in
    rw (ends, same) refl
latency_loop-first (suc r) clock time (suc n) k fuel early late =
    let same : k + 0 ≡ k = omega arith in
    let later : (j : ℕ) → k + suc j ≡ k + 1 + j = λ j. omega arith in
    let now : waited (clock 0) (clock k) < time = (rw same at (early 0 (omega arith))) in
    let goes_on : ltb (waited (clock 0) (clock k)) time ≡ true = ground (arith, now) in
    let rest =
      latency_loop-first r clock time n (k + 1) (omega (arith, fuel))
        (λ j lt. rw (later j) at (early (suc j) (omega (arith, lt)))) (rw (later n) at late) in
    rw goes_on (rest ∙ rw (later n) refl)

-- The first reading at which the timer is `time` later ends it, given more rounds than readings before it.
pub latency-first :
    (rounds : ℕ) (clock : ℕ → ℕ) (time n : ℕ)
    → n < rounds
    → ((j : ℕ) → j < n → waited (clock 0) (clock (1 + j)) < time)
    → time ≤ waited (clock 0) (clock (1 + n))
    → latency rounds clock time ≡ ok (1 + n)
unfolding latency
latency-first rounds clock time n fuel early late =
    latency_loop-first rounds clock time n 1 fuel early late

-- The clock is a word, so an alarm of 429 or later never goes off.
due-never :
    (s : State) (a : ℕ) → s.time_elapsed < 2 ^ 32 → 429 ≤ (s.pcb a).alarm_time → due s a ≡ false
unfolding get_timer
due-never s a word late = ground arith
