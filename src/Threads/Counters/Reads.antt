-- ===== src/Threads/Counters/Reads.antt =====
-- The read state that `add_comment` leaves to every reader of every thread.
use sshoosh.Base.{
  ℕ, ◌+◌, ◌≤◌, ◌≡◌, refl, sym, ◌∙◌, inl, inr, Bool, true, false, ◌&&◌, Option, none, some, List, [],
  ◌∷◌, ◌==◌, ==_iff, ltb, if◌then◌else◌, arith, Bool-cases, ==_refl,
}
use mathlib.Core.Path.{subst}
use sshoosh.Base.Int.{pos}
use sshoosh.Base.Tables.{find, count}
use sshoosh.Base.Tables.Find.{find-upsert_self, find-upsert_other}
use sshoosh.Db.{ThreadReadRow}
use sshoosh.Threads.Writes.{is_read_of, new_read, read_up_to, bump_unread_of, bump_unread}

pub is_read_of_self :
    (k a : ℕ) (r : ThreadReadRow) → r.thread_id ≡ k → r.account_id ≡ a → is_read_of k a r ≡ true
unfolding is_read_of
is_read_of_self k a r p q = ground arith

-- Two keys that differ fit no row together.
pub is_read_of_apart :
    (k a j b : ℕ) (r : ThreadReadRow)
    → (j == k && b == a) ≡ false
    → is_read_of k a r ≡ true
    → is_read_of j b r ≡ false
unfolding is_read_of
is_read_of_apart k a j b r h e = ground arith

abbrev pub bumped : ℕ → ℕ → ℕ → Option ThreadReadRow → ThreadReadRow
bumped k a n none = record (new_read k a) { unread_count = n }
bumped k a n (some r) = record r { unread_count = r.unread_count + 1 }

abbrev pub caught_up : ℕ → ℕ → ℕ → Option ThreadReadRow → ThreadReadRow
caught_up k a last none = record (new_read k a) { last_read_index = pos last }
caught_up k a last (some r) = record r { last_read_index = pos last; unread_count = 0 }

module _ (k a : ℕ) (reads : List ThreadReadRow) where
  find-bump_self :
      (n : ℕ)
      → find (is_read_of k a) (bump_unread_of k n a reads)
        ≡ some (bumped k a n (find (is_read_of k a) reads))
  unfolding bump_unread_of is_read_of
  find-bump_self n = find-upsert_self _ _ _ reads (λ r. refl) (ground arith) ∙ ground arith

  find-bump_other :
      (j b n : ℕ)
      → (j == k && b == a) ≡ false
      → find (is_read_of k a) (bump_unread_of j n b reads) ≡ find (is_read_of k a) reads
  unfolding bump_unread_of is_read_of
  find-bump_other j b n h =
      find-upsert_other _ _ _ _ reads (λ r. refl) (λ r. is_read_of_apart k a j b r h) h

  pub find-read_up_to_self :
      (last : ℕ)
      → find (is_read_of k a) (read_up_to k a last reads)
        ≡ some (caught_up k a last (find (is_read_of k a) reads))
  unfolding read_up_to is_read_of
  find-read_up_to_self last = find-upsert_self _ _ _ reads (λ r. refl) (ground arith) ∙ ground arith

  pub find-read_up_to_other :
      (j b last : ℕ)
      → (j == k && b == a) ≡ false
      → find (is_read_of k a) (read_up_to j b last reads) ≡ find (is_read_of k a) reads
  unfolding read_up_to is_read_of
  find-read_up_to_other j b last h =
      find-upsert_other _ _ _ _ reads (λ r. refl) (λ r. is_read_of_apart k a j b r h) h

-- The members are bumped one by one; who stands in the list once is bumped once.
module _ (k a : ℕ) where
  find-bump_unread_elsewhere :
      (j n : ℕ) (ms : List ℕ) (reads : List ThreadReadRow)
      → (j == k) ≡ false
      → find (is_read_of k a) (bump_unread j n ms reads) ≡ find (is_read_of k a) reads
  unfolding bump_unread
  find-bump_unread_elsewhere j n [] reads h = refl
  find-bump_unread_elsewhere j n (b ∷ ms) reads h =
      find-bump_unread_elsewhere j n ms (bump_unread_of j n b reads) h
      ∙ find-bump_other k a reads j b n (rw h)

  find-bump_unread_none :
      (n : ℕ) (ms : List ℕ) (reads : List ThreadReadRow)
      → count (λ b. b == a) ms ≡ 0
      → find (is_read_of k a) (bump_unread k n ms reads) ≡ find (is_read_of k a) reads
  unfolding bump_unread count
  find-bump_unread_none n [] reads h = refl
  find-bump_unread_none n (b ∷ ms) reads h =
      find-bump_unread_none n ms (bump_unread_of k n b reads) (ground arith)
      ∙ find-bump_other k a reads k b n (ground arith)

  find-bump_unread_once :
      (n : ℕ) (ms : List ℕ) (reads : List ThreadReadRow)
      → count (λ b. b == a) ms ≡ 1
      → find (is_read_of k a) (bump_unread k n ms reads)
        ≡ some (bumped k a n (find (is_read_of k a) reads))
  unfolding bump_unread count
  find-bump_unread_once n [] reads h = absurd (omega arith)
  find-bump_unread_once n (b ∷ ms) reads h = elim (Bool-cases (b == a)) [
    | inl e ↦
        find-bump_unread_none n ms (bump_unread_of k n b reads) (ground arith)
        ∙ subst
            (λ c.
              find (is_read_of k a) (bump_unread_of k n c reads)
              ≡ some (bumped k a n (find (is_read_of k a) reads)))
            (sym ((==_iff b a).0 e)) (find-bump_self k a reads n)
    | inr e ↦
        find-bump_unread_once n ms (bump_unread_of k n b reads) (ground arith)
        ∙ rw (find-bump_other k a reads k b n (ground arith))
  ]

-- What a comment of `actor` in the thread `j`, whose last index is `last` and whose count is `n`
-- from then on, makes of a read row. `is_other` says of the reader to be another member.
unfoldable pub read_after :
    (j actor last n k a : ℕ) → Bool → Option ThreadReadRow → Option ThreadReadRow
read_after j actor last n k a is_other old =
    if j == k
    then if actor == a
      then some (caught_up k a last old)
      else if is_other
      then some (bumped k a n old)
      else old
    else old

module _ (actor last n k a : ℕ) (others : List ℕ) (reads : List ThreadReadRow) where
  after_own :
      count (λ b. b == a) others ≡ 0
      → (actor == a) ≡ true
      → find (is_read_of k a) (bump_unread k n others (read_up_to k actor last reads))
        ≡ some (caught_up k a last (find (is_read_of k a) reads))
  after_own absent e =
      find-bump_unread_none k a n others (read_up_to k actor last reads) absent
      ∙ subst
          (λ c.
            find (is_read_of k a) (read_up_to k c last reads)
            ≡ some (caught_up k a last (find (is_read_of k a) reads)))
          (sym ((==_iff actor a).0 e)) (find-read_up_to_self k a reads last)

  after_other :
      count (λ b. b == a) others ≡ 1
      → (actor == a) ≡ false
      → find (is_read_of k a) (bump_unread k n others (read_up_to k actor last reads))
        ≡ some (bumped k a n (find (is_read_of k a) reads))
  after_other one e =
      find-bump_unread_once k a n others (read_up_to k actor last reads) one
      ∙ rw (find-read_up_to_other k a reads k actor last (ground arith))

  after_stranger :
      count (λ b. b == a) others ≡ 0
      → (actor == a) ≡ false
      → find (is_read_of k a) (bump_unread k n others (read_up_to k actor last reads))
        ≡ find (is_read_of k a) reads
  after_stranger absent e =
      find-bump_unread_none k a n others (read_up_to k actor last reads) absent
      ∙ find-read_up_to_other k a reads k actor last (ground arith)

  after_here :
      count (λ b. b == a) others ≤ 1
      → ((actor == a) ≡ true → count (λ b. b == a) others ≡ 0)
      → find (is_read_of k a) (bump_unread k n others (read_up_to k actor last reads))
        ≡ read_after k actor last n k a
            (ltb 0 (count (λ b. b == a) others))
            (find (is_read_of k a) reads)
  unfolding read_after
  after_here once not_self = elim (Bool-cases (actor == a)) [
    | inl e ↦ after_own (not_self e) e ∙ rw (e, ==_refl k)
    | inr e ↦ elim (Bool-cases (ltb 0 (count (λ b. b == a) others))) [
      | inl d ↦ after_other (ground arith) e ∙ rw (e, d, ==_refl k)
      | inr d ↦ after_stranger (ground arith) e ∙ rw (e, d, ==_refl k)
    ]
  ]

pub find-after_comment :
    (j actor last n k a : ℕ) (others : List ℕ) (reads : List ThreadReadRow)
    → count (λ b. b == a) others ≤ 1
    → ((actor == a) ≡ true → count (λ b. b == a) others ≡ 0)
    → find (is_read_of k a) (bump_unread j n others (read_up_to j actor last reads))
      ≡ read_after j actor last n k a
          (ltb 0 (count (λ b. b == a) others))
          (find (is_read_of k a) reads)
find-after_comment j actor last n k a others reads once not_self = elim (Bool-cases (j == k)) [
  | inr e ↦
      (find-bump_unread_elsewhere k a j n others (read_up_to j actor last reads) e
        ∙ find-read_up_to_other k a reads j actor last (rw e))
      ∙ unfold read_after in rw e
  | inl e ↦
      subst
        (λ x.
          find (is_read_of k a) (bump_unread x n others (read_up_to x actor last reads))
          ≡ read_after x actor last n k a (ltb 0 (count (λ b. b == a) others))
              (find (is_read_of k a) reads))
        (sym ((==_iff j k).0 e)) (after_here actor last n k a others reads once not_self)
]
