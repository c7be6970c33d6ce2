-- ===== src/System/Zeroed.antt =====
-- `init_pcb` of init/main.c, on the memory that the loader zeroed.
use os_prj.Prelude.{
  ap, neg_part, ltb_ℤ, ℕ, ◌≡◌, ◌∙◌, refl, sym, true, false, [], arith, ◌==◌, eq_of_==, pos,
  if◌then◌else◌,
}
use mathlib.Core.Path.{subst}
use os_prj.Run.{ok-inj, ok}
use os_prj.Queue.Push.{queue_push-snoc}
use os_prj.Queue.{eq_of_queue_eq, QueueId, Links, sleep, waiting}
use os_prj.Queue.Represents.{Represents}
use os_prj.Kernel.{State, blocked}
use os_prj.Locking.Mutex.Owned.{holds}
use os_prj.Process.{init_pcb, boot_table}
use os_prj.Process.Table.{queue_init-nil, booted}
use os_prj.System.Invariant.{IsAccounted, IsOrderly}
use os_prj.System.Counted.{IsCounted, InOrder, of_object, apart-IsCounted}

-- The memory of the kernel before it starts.
pub record IsZeroed (s : State) : Type 0 where
  pub queues : Represents s.links (λ q. [])
  pub pids : (a : ℕ) → (s.pcb a).pid ≡ pos 0
  pub owns : (k a : ℕ) → holds k (s.pcb a).lock_owned ≡ false
  pub statuses : (a : ℕ) → (s.pcb a).status ≡ blocked
  pub semaphores : (k : ℕ) → s.semaphore k ≡ pos 0
  pub conditions : (k : ℕ) → s.num_waiting k ≡ pos 0
  pub barriers : (k : ℕ) → (s.barrier k).num_expected ≡ pos 0

module _ (handle_int test_shell : ℕ) (s : State) (Z : IsZeroed s) where
  abbrev started : Links → State
  started l = record (boot_table handle_int test_shell s) {
    links = l;
    next_pid = pos 2;
    historical_num = 1;
  }

  started-pid : (l : Links) (a : ℕ) → ((started l).pcb a).pid ≡ (if 1 == a then pos 1 else pos 0)
  unfolding boot_table
  started-pid l a = ground (arith, Z.pids a)

  started-owns : (l : Links) (k a : ℕ) → holds k ((started l).pcb a).lock_owned ≡ false
  unfolding boot_table
  started-owns l k a = ground (arith, Z.owns k a)

  started-IsAccounted : (l : Links) → IsAccounted (started l)
  started-IsAccounted l = record {
    owned = λ k a high h. absurd (let no = sym (started-owns l k a) ∙ h in cc);
    unique = λ a b ha hb n e.
        ground (arith, started-pid l a, started-pid l b, eq_of_== 1 a, eq_of_== 1 b, n, e);
    fresh = λ a high. ground (arith, started-pid l a);
    positive = refl;
    holders = λ k a high h. absurd (let no = sym (started-owns l k a) ∙ h in cc);
  }

  -- Only the shell is in a queue, and no process runs yet.
  started-IsOrderly :
      (l : Links) → Represents l (booted (λ q. [])) → IsOrderly (started l) (booted (λ q. []))
  unfolding boot_table
  started-IsOrderly l R = record {
    settled = record {
      queues = R;
      placed = λ q a h. ground (arith, h, eq_of_== a 1, eq_of_queue_eq (QueueId.ready 2) q);
      members = λ q a h. ground (arith, h, eq_of_== a 1, eq_of_queue_eq (QueueId.ready 2) q);
      inside = omega arith;
      leaves = rw (Z.statuses 0) refl;
      rested = λ h. cc;
      caller = λ low. absurd (omega arith);
      accounts = started-IsAccounted l;
    };
    runs = λ low. absurd (omega arith);
  }

  pub init_pcb-InOrder : (t : State) → init_pcb handle_int test_shell s ≡ ok t → InOrder t
  unfolding init_pcb boot_table
  init_pcb-InOrder t run =
      let R₁ =
        queue_init-nil (QueueId.ready 2)
          (queue_init-nil (QueueId.ready 1) (queue_init-nil (QueueId.ready 0) Z.queues)) in
      let R₂ = queue_init-nil (waiting 1) (queue_init-nil sleep R₁) in
      let (l, e, R) =
        queue_push-snoc R₂ (QueueId.ready 2) 1 (λ r. ground arith) (omega arith) (omega arith) in
      let same : init_pcb handle_int test_shell s ≡ ok (started l) = rw e refl in
      (
        booted (λ q. []),
        subst (λ u. IsOrderly u (booted (λ q. []))) (ok-inj (sym same ∙ run))
            (started-IsOrderly l R),
        subst (λ u. IsCounted u (booted (λ q. []))) (ok-inj (sym same ∙ run))
            (apart-IsCounted s (λ q. []) (booted (λ q. [])) booted-object zeroed_objects),
      )
    where
      zeroed_objects : IsCounted s (λ q. [])
      zeroed_objects = record {
        semaphores = λ k. ap neg_part (Z.semaphores k);
        conditions = Z.conditions;
        barriers = λ k expects.
            absurd
              (let none_expected = ap (λ v. ltb_ℤ (pos 0) v) (sym (Z.barriers k)) ∙ expects in cc);
        locks = λ m a h. cc;
      }

      booted-object : (q : QueueId) → of_object q ≡ true → booted (λ r. []) q ≡ []
      booted-object q h = ground (arith, eq_of_queue_eq (QueueId.ready 2) q)
