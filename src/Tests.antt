-- ===== src/Tests.antt =====
-- Small concrete states of the kernel, on which the theorems and the code are tried.
pub mod Queues
pub mod Kernels
pub mod Processes
pub mod Devices
pub mod Systems
pub mod Waiting
pub mod Ticking
pub mod Mailboxes
pub mod Images
use os_prj.Prelude.{
  ℕ, ◌<◌, ◌≡◌, refl, Bool, true, false, none, some, List, [], ◌∷◌, arith, has, Distinct, ◌==◌,
  if◌then◌else◌, Bool-cases, inl, inr, ℤ, pos, negsuc, replicate,
}
use os_prj.Queue.{QueueId, queue_eq, eq_of_queue_eq, queue_eq_self, Links, Queue}
use os_prj.Queue.Represents.{Represents, Lists, IsFree}
use os_prj.Kernel.{
  State, Pcb, RegsContext, TaskStatus, user_process, leave, MutexLock, Barrier, unlocked, running,
}

-- The queue `q` holds the blocks 1, 2 and 3, and all others are empty.
abbrev pub three_lists : QueueId → Lists
three_lists q r = if queue_eq q r then 1 ∷ 2 ∷ 3 ∷ [] else []

abbrev pub three_links : QueueId → Links
three_links q = record {
  prev = λ i. if i == 2 then some 1 else if i == 3 then some 2 else none;
  next = λ i. if i == 1 then some 2 else if i == 2 then some 3 else none;
  queue = λ r.
      if queue_eq q r
      then record { head = some 1; tail = some 3 }
      else record { head = none; tail = none };
}

pub three-Represents : (q : QueueId) → Represents (three_links q) (three_lists q)
three-Represents q = record {
  linked = λ r. ground arith;
  distinct = λ r. ground arith;
  apart = λ r r' a here there. ground (arith, eq_of_queue_eq q r, eq_of_queue_eq q r');
  inside = λ r a here. ground arith;
  idle = refl;
}

pub three-IsFree : (q : QueueId) → IsFree 4 (three_lists q)
three-IsFree q r = ground arith

-- No queue holds a block.
abbrev pub no_links : Links
no_links = record {
  prev = λ i. none;
  next = λ i. none;
  queue = λ q. record { head = none; tail = none };
}

abbrev pub no_lists : Lists
no_lists q = []

pub no-Represents : Represents no_links no_lists
no-Represents = record {
  linked = λ q. ground arith;
  distinct = λ q. tt;
  apart = λ q r a here there. cc;
  inside = λ q a here. cc;
  idle = refl;
}

abbrev pub no_regs : RegsContext
no_regs = record {
  v0 = pos 0;
  sp = 0;
  ra = 0;
  cp0_status = 0;
  cp0_badvaddr = 0;
  cp0_cause = 0;
  cp0_epc = 0;
}

-- A block of the process with the number `i`.
abbrev pub block_of : ℕ → TaskStatus → Pcb
block_of i status = record {
  kernel_context = no_regs;
  user_context = no_regs;
  continuation = leave;
  alarm_time = 10;
  pid = pos i;
  type = user_process;
  priority = 1;
  status = status;
  cursor_x = pos 0;
  cursor_y = pos 0;
  waiting_pcb = negsuc 0;
  lock_waiting = none;
  lock_owned = replicate 5 none;
}

-- The process in `pcb[4]` runs, `links` are the queues, and every block but `pcb[9]` is in use.
abbrev pub kernel : Links → TaskStatus → State
kernel links others = record {
  links = links;
  pcb =
      λ i. block_of i (if i == 4 then running else if i == 9 then TaskStatus.not_exist else others);
  current_running = 4;
  process_id = pos 4;
  next_pid = pos 20;
  historical_num = 3;
  time_elapsed = 30000000;
  screen_cursor_x = pos 0;
  screen_cursor_y = pos 0;
  mutex = λ m. record { status = unlocked; owner = negsuc 0 };
  semaphore = λ k. negsuc 2;
  barrier = λ k. record { num_expected = pos 4; num_now = pos 3 };
  num_waiting = λ k. pos 3;
  printed = [];
}
