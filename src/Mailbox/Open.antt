-- ===== src/Mailbox/Open.antt =====
-- `mbox_open` of libs/mailbox.c.
use os_prj.Prelude.{
  ℕ, zero, suc, ◌+◌, ◌≤◌, ◌<◌, ◌≡◌, ◌∙◌, refl, ap, true, false, arith, ◌==◌, ==_self, eq_of_==, ltb,
  Bool-cases, inl, inr, List, length, pos, ◌==ℤ◌, ==ℤ_iff, ◌+ℤ◌,
}
use os_prj.Run.{ok, hang}
use os_prj.Text.Copy.{within}
use os_prj.Text.Compare.{IsString, strlen-length}
use os_prj.Text.Strcpy.{AreApart, strcpy-copies}
use os_prj.Text.{Memory, streq}
use os_prj.Mailbox.{
  Layout, Services, World, max_num_box, mail_box_name_length, find_name, find_unused, join,
  name_box, open_unused, mbox_open,
}

module _ (layout : Layout) (os : Services) (rounds name : ℕ) where
  -- The loop ends at the first box with the name.
  find_name-hit :
      (n j i : ℕ) (m : Memory)
      → j ≤ i
      → i < j + n
      → streq rounds (layout.name_at i) name m ≡ ok (pos 1)
      → ((k : ℕ) → j ≤ k → k < i → streq rounds (layout.name_at k) name m ≡ ok (pos 0))
      → find_name layout os rounds n j name m ≡ ok i
  unfolding find_name
  find_name-hit zero j i m low high hit before = absurd (omega arith)
  find_name-hit (suc n) j i m low high hit before = elim (Bool-cases (j == i)) [
    | inl same ↦
        let now : streq rounds (layout.name_at j) name m ≡ ok (pos 1) =
          rw (eq_of_== j i same) hit in
        rw (now, find_name) (ap ok (eq_of_== j i same))
    | inr other ↦
        let below : j < i = ground (arith, ==_self i) in
        rw (before j (omega arith) below, find_name)
          (find_name-hit n (j + 1) i m (omega arith) (omega arith) hit
            λ k above. before k (omega arith))
  ]

  find_name-miss :
      (n j : ℕ) (m : Memory)
      → ((k : ℕ) → j ≤ k → k < j + n → streq rounds (layout.name_at k) name m ≡ ok (pos 0))
      → find_name layout os rounds n j name m ≡ ok (j + n)
  unfolding find_name
  find_name-miss zero j m all = ap ok (omega arith)
  find_name-miss (suc n) j m all =
      rw (all j (omega arith) (omega arith), find_name)
        (find_name-miss n (j + 1) m (λ k above below. all k (omega arith) (omega arith))
          ∙ ap ok (omega arith))

  find_unused-hit :
      (n j i : ℕ) (w : World)
      → j ≤ i
      → i < j + n
      → (w.mboxs i).num_users ≡ pos 0
      → ((k : ℕ) → j ≤ k → k < i → ((w.mboxs k).num_users ==ℤ pos 0) ≡ false)
      → find_unused layout os n j w ≡ i
  unfolding find_unused
  find_unused-hit zero j i w low high hit before = absurd (omega arith)
  find_unused-hit (suc n) j i w low high hit before =
      elim (Bool-cases ((w.mboxs j).num_users ==ℤ pos 0)) [
        | inl now ↦ let same : j ≡ i = ground (arith, before j) in rw now same
        | inr later ↦
            let used : (j == i) ≡ false =
              ground (arith, eq_of_== j i, later, (==ℤ_iff (w.mboxs i).num_users (pos 0)).1 hit) in
            let below : j < i = ground (arith, ==_self i) in
            rw later (
              find_unused-hit n (j + 1) i w (omega arith) (omega arith) hit
                λ k above. before k (omega arith))
      ]

  find_unused-miss :
      (n j : ℕ) (w : World)
      → ((k : ℕ) → j ≤ k → k < j + n → ((w.mboxs k).num_users ==ℤ pos 0) ≡ false)
      → find_unused layout os n j w ≡ j + n
  unfolding find_unused
  find_unused-miss zero j w all = omega arith
  find_unused-miss (suc n) j w all =
      let rest = find_unused-miss n (j + 1) w λ k above below. all k (omega arith) (omega arith) in
      rw (all j (omega arith) (omega arith)) (omega (arith, rest))

  module _ (w : World) where
    name_box-fits :
        (s : List ℕ) (i : ℕ)
        → IsString w.memory name s
        → length s < rounds
        → length s < mail_box_name_length
        → AreApart (length s) (layout.name_at i) name
        → (m : Memory) × (name_box layout os rounds name i w
            ≡ ok (i, join layout os i (record w { memory = m })))
          × IsString m (layout.name_at i) s
          × ((k : ℕ) → within (layout.name_at i) (length s + 1) k ≡ false → m k ≡ w.memory k)
    unfolding name_box
    name_box-fits s i string fuel fits apart =
        let (m, copied, named, others) =
          strcpy-copies s rounds (layout.name_at i) name w.memory string fuel apart in
        let short : ltb (length s) mail_box_name_length ≡ true = ground arith in
        let measured = strlen-length s rounds name w.memory string fuel in
        (m, rw measured (rw (short, copied) refl), named, others)

    -- A name that a box has opens the first such box, and counts one more user.
    pub mbox_open-found :
        (i : ℕ)
        → i < max_num_box
        → streq rounds (layout.name_at i) name w.memory ≡ ok (pos 1)
        → ((k : ℕ) → k < i → streq rounds (layout.name_at k) name w.memory ≡ ok (pos 0))
        → mbox_open layout os rounds name w ≡ ok (i, join layout os i w)
    unfolding mbox_open
    mbox_open-found i high hit before =
        let found = find_name-hit 5 0 i w.memory (omega arith) high hit (λ k low. before k) in
        let inside : ltb i max_num_box ≡ true = ground arith in rw (found, hit, inside) refl

    -- For a name that no box and not the bytes behind the array have, `mbox_open` takes the first
    -- box that nobody uses: the box has the name and one user, and no other box and no other byte
    -- changes. The name has fewer than 30 bytes before its zero byte, and no byte in common with
    -- the name of the box.
    pub mbox_open-new :
        (s : List ℕ) (i : ℕ)
        → IsString w.memory name s
        → length s < rounds
        → length s < mail_box_name_length
        → AreApart (length s) (layout.name_at i) name
        → ((k : ℕ) → k ≤ max_num_box → streq rounds (layout.name_at k) name w.memory ≡ ok (pos 0))
        → i < max_num_box
        → (w.mboxs i).num_users ≡ pos 0
        → ((k : ℕ) → k < i → ((w.mboxs k).num_users ==ℤ pos 0) ≡ false)
        → (t : World) × (mbox_open layout os rounds name w ≡ ok (i, t))
          × IsString t.memory (layout.name_at i) s
          × ((k : ℕ) → within (layout.name_at i) (length s + 1) k ≡ false → t.memory k ≡ w.memory k)
          × ((t.mboxs i).num_users ≡ pos 1)
          × ((k : ℕ) → (i == k) ≡ false → t.mboxs k ≡ w.mboxs k)
    unfolding mbox_open open_unused ◌+ℤ◌
    mbox_open-new s i string fuel fits apart none_has high spare before =
        let missed = find_name-miss 5 0 w.memory (λ k low below. none_has k (omega arith)) in
        let found : find_unused layout os 5 0 w ≡ i =
          find_unused-hit 5 0 i w (omega arith) high spare (λ k low. before k) in
        let (m', takes, named, others) = name_box-fits s i string fuel fits apart in
        let inside : ltb i max_num_box ≡ true = ground arith in
        let t = join layout os i (record w { memory = m' }) in
        (
          t,
          rw (missed, none_has 5 (omega arith), found, inside, takes) refl,
          named,
          others,
          rw (==_self i, spare) refl,
          λ k o. rw o refl,
        )

    -- With all boxes in use, a name that no box has stops the program.
    pub mbox_open-hang :
        ((k : ℕ) → k ≤ max_num_box → streq rounds (layout.name_at k) name w.memory ≡ ok (pos 0))
        → ((k : ℕ) → k < max_num_box → ((w.mboxs k).num_users ==ℤ pos 0) ≡ false)
        → mbox_open layout os rounds name w ≡ hang
    unfolding mbox_open open_unused
    mbox_open-hang none_has all =
        let missed = find_name-miss 5 0 w.memory (λ k low below. none_has k (omega arith)) in
        let full : find_unused layout os 5 0 w ≡ 5 =
          find_unused-miss 5 0 w (λ k low below. all k below) in
        rw (missed, none_has 5 (omega arith), full) refl
