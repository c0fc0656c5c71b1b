-- ===== src/Threads/Counters/Marks.antt =====
-- Marking a thread read or unread, muting it and saving it keep the counters, and a mark makes the
-- reader's count exact.
use mathlib.Core.Path.{subst, subst₂}
use sshoosh.Base.{
  ℕ, zero, suc, ◌≡◌, refl, sym, ◌∙◌, inl, inr, Bool, true, false, ◌&&◌, Option, none, some, ◌==◌,
  arith, leb, Bool-cases, Option-cases, some_inj,
}
use sshoosh.Base.Int.{pos, pred_ℤ, below}
use sshoosh.Base.Tables.{find, count, upsert}
use sshoosh.Base.Tables.Find.{find-upsert_self, find-upsert_other}
use sshoosh.Db.{Chat, Env, ThreadRow, ThreadReadRow}
use sshoosh.Threads.Writes.{
  is_thread, is_read_of, is_live, is_unread, new_read, read_all, unread_last,
  upsert_thread_read_state,
}
use sshoosh.Threads.Counters.{IsCounted, IsExact, IsReadOk}
use sshoosh.Threads.Counters.Reads.{is_read_of_apart}
use sshoosh.Threads.Counters.Comments.{live-eq-unread, unread-past_last, below_self}

-- One read row is written under its key.
module _ (k a : ℕ) (new : ThreadReadRow) (f : ThreadReadRow → ThreadReadRow) (chat : Chat)
    (keep : (j b : ℕ) (r : ThreadReadRow) → is_read_of j b (f r) ≡ is_read_of j b r)
    (new_key : is_read_of k a new ≡ true) where
  abbrev marked : Chat
  marked = record chat { thread_reads = upsert (is_read_of k a) new f chat.thread_reads }

  pub find-marked_self :
      find (is_read_of k a) marked.thread_reads
      ≡ elim (find (is_read_of k a) chat.thread_reads) [ none ↦ some new | some r ↦ some (f r) ]
  find-marked_self = find-upsert_self _ new f chat.thread_reads (keep k a) new_key

  -- What holds of the new row and of every rewritten one holds of the row that is there then.
  pub marked_self :
      (P : ThreadReadRow → Type 0)
      → P new
      → ((x : ThreadReadRow) → find (is_read_of k a) chat.thread_reads ≡ some x → P (f x))
      → (r : ThreadReadRow) → find (is_read_of k a) marked.thread_reads ≡ some r
      → P r
  marked_self P p_new p_old r h = elim (Option-cases (find (is_read_of k a) chat.thread_reads)) [
    | inl e ↦ subst P (some_inj new r (rw (find-marked_self, e) at h)) p_new
    | inr (x, e) ↦ subst P (some_inj (f x) r (rw (find-marked_self, e) at h)) (p_old x e)
  ]

  -- There is a row then, and it is the new one or a rewritten one.
  pub marked_row :
      (P : ThreadReadRow → Type 0)
      → P new
      → ((x : ThreadReadRow) → P (f x))
      → (r : ThreadReadRow) × (find (is_read_of k a) marked.thread_reads ≡ some r) × P r
  marked_row P p_new p_old = elim (Option-cases (find (is_read_of k a) chat.thread_reads)) [
    | inl e ↦ (new, find-marked_self ∙ rw e refl, p_new)
    | inr (x, e) ↦ (f x, find-marked_self ∙ rw e refl, p_old x)
  ]

  find-marked_other :
      (j b : ℕ)
      → (k == j && a == b) ≡ false
      → find (is_read_of j b) marked.thread_reads ≡ find (is_read_of j b) chat.thread_reads
  find-marked_other j b ne =
      find-upsert_other _ _ new f chat.thread_reads (keep j b) (λ r. is_read_of_apart j b k a r ne)
        (is_read_of_apart k a j b new (ground arith) new_key)

  module _ (counted : IsCounted chat) (t : ThreadRow)
      (found : find (is_thread k) chat.threads ≡ some t)
      (new_ok : IsReadOk k t.last_comment_index chat.comments new)
      (f_ok : (r : ThreadReadRow)
        → IsReadOk k t.last_comment_index chat.comments r
        → IsReadOk k t.last_comment_index chat.comments (f r)) where
    self_ok :
        (r : ThreadReadRow)
        → find (is_read_of k a) marked.thread_reads ≡ some r
        → IsReadOk k t.last_comment_index chat.comments r
    self_ok =
        marked_self (IsReadOk k t.last_comment_index chat.comments) new_ok
          (λ x e. f_ok x (counted.read_marks k a t x found e, counted.unread_bound k a t x found e))

    marked_ok :
        (j b : ℕ) (u : ThreadRow) (r : ThreadReadRow)
        → find (is_thread j) chat.threads ≡ some u
        → find (is_read_of j b) marked.thread_reads ≡ some r
        → IsReadOk j u.last_comment_index chat.comments r
    marked_ok j b u r g h = elim (Bool-cases (k == j && a == b)) [
      | inl e ↦
          subst₂
            (λ j b.
              (u : ThreadRow) (r : ThreadReadRow)
              → find (is_thread j) chat.threads ≡ some u
              → find (is_read_of j b) marked.thread_reads ≡ some r
              → IsReadOk j u.last_comment_index chat.comments r)
            (same_key j b e).0 (same_key j b e).1
            (λ u r g h.
              subst (λ (v : ThreadRow). IsReadOk k v.last_comment_index chat.comments r)
                (some_inj t u (sym found ∙ g)) (self_ok r h))
            u r g h
      | inr e ↦ (
        counted.read_marks j b u r g (sym (find-marked_other j b e) ∙ h),
        counted.unread_bound j b u r g (sym (find-marked_other j b e) ∙ h),
      )
    ]
      where
        same_key : (j b : ℕ) → (k == j && a == b) ≡ true → (k ≡ j) × (a ≡ b)
        same_key j b e = ground arith

    pub marked-IsCounted : IsCounted marked
    marked-IsCounted = record {
      thread_ids = counted.thread_ids;
      comment_ids = counted.comment_ids;
      members = counted.members;
      in_range = counted.in_range;
      comment_count = counted.comment_count;
      read_marks = λ j b u r g h. (marked_ok j b u r g h).0;
      unread_bound = λ j b u r g h. (marked_ok j b u r g h).1;
    }

module _ (k a : ℕ) (chat : Chat) (counted : IsCounted chat) (t : ThreadRow)
    (found : find (is_thread k) chat.threads ≡ some t) where
  nothing_past : count (is_unread k (pos t.last_comment_index)) chat.comments ≡ 0
  nothing_past = unread-past_last k t.last_comment_index chat.comments (counted.in_range k t found)

  pub read_all-IsCounted : IsCounted (read_all k a t.last_comment_index chat)
  unfolding read_all
  read_all-IsCounted =
      marked-IsCounted k a _ _ chat (λ j b r. unfold is_read_of in refl)
        (unfold is_read_of in ground arith) counted t found
        (below_self t.last_comment_index, omega arith)
        (λ r h. (below_self t.last_comment_index, omega arith))

  -- After `mark_thread_read` the reader's mark is the last comment, and the count 0 is exact.
  pub read_all-mark :
      (r : ThreadReadRow) × (find
          (is_read_of k a)
          (read_all k a t.last_comment_index chat).thread_reads
        ≡ some r)
      × ((r.last_read_index ≡ pos t.last_comment_index)
          × (r.unread_count ≡ 0)
          × (count (is_unread k r.last_read_index) chat.comments) ≡ 0)
  unfolding read_all
  read_all-mark =
      marked_row k a (record (new_read k a) { last_read_index = pos t.last_comment_index })
        (λ r. record r {
          last_read_index = pos t.last_comment_index;
          unread_count = 0;
          marked_unread_at = none;
        })
        chat (λ j b r. unfold is_read_of in refl) (unfold is_read_of in ground arith)
        (λ r.
          (r.last_read_index ≡ pos t.last_comment_index)
          × (r.unread_count ≡ 0)
          × (count (is_unread k r.last_read_index) chat.comments ≡ 0))
        (refl, refl, nothing_past) (λ x. (refl, refl, nothing_past))

  below-pred : (n : ℕ) → below (pred_ℤ n) (suc n) ≡ true
  below-pred zero = refl
  below-pred (suc n) = ground arith

  below-pred_ℤ : (n i : ℕ) → below (pred_ℤ n) i ≡ leb n i
  below-pred_ℤ zero i = ground arith
  below-pred_ℤ (suc n) i = ground arith

  pub unread_last-IsCounted :
      (env : Env) → IsCounted (unread_last env k a t.last_comment_index chat)
  unfolding unread_last
  unread_last-IsCounted env =
      marked-IsCounted k a _ _ chat (λ j b r. unfold is_read_of in refl)
        (unfold is_read_of in ground arith) counted t found
        (below-pred t.last_comment_index, omega arith)
        (λ r h. (below-pred t.last_comment_index, omega arith))

  -- After `mark_thread_unread` what the mark leaves unread starts at the last index, and the count
  -- is exact.
  pub unread_last-mark :
      (env : Env)
      → (r : ThreadReadRow) × (find
            (is_read_of k a)
            (unread_last env k a t.last_comment_index chat).thread_reads
          ≡ some r)
        × (((i : ℕ) → below r.last_read_index i ≡ leb t.last_comment_index i)
            × (r.unread_count ≡ count (is_unread k r.last_read_index) chat.comments))
  unfolding unread_last
  unread_last-mark env =
      marked_row k a
        (record (new_read k a) {
          last_read_index = pred_ℤ t.last_comment_index;
          unread_count = count (is_unread k (pred_ℤ t.last_comment_index)) chat.comments;
          marked_unread_at = some env.now;
        })
        (λ r. record r {
          last_read_index = pred_ℤ t.last_comment_index;
          unread_count = count (is_unread k (pred_ℤ t.last_comment_index)) chat.comments;
          marked_unread_at = some env.now;
        })
        chat (λ j b r. unfold is_read_of in refl) (unfold is_read_of in ground arith)
        (λ r.
          ((i : ℕ) → below r.last_read_index i ≡ leb t.last_comment_index i)
          × (r.unread_count ≡ count (is_unread k r.last_read_index) chat.comments))
        (below-pred_ℤ t.last_comment_index, refl) (λ x. (below-pred_ℤ t.last_comment_index, refl))

  all_live : count (is_live k) chat.comments ≡ count (is_unread k (pos 0)) chat.comments
  all_live = live-eq-unread k t.last_comment_index chat.comments (counted.in_range k t found)

  module _ (mute save : Bool) (muted_until saved_at : Option ℕ) where
    pub upsert_thread_read_state-IsCounted :
        IsCounted (upsert_thread_read_state a k mute muted_until save saved_at chat)
    unfolding upsert_thread_read_state
    upsert_thread_read_state-IsCounted =
        marked-IsCounted k a _ _ chat (λ j b r. unfold is_read_of in refl)
          (unfold is_read_of in ground arith) counted t found
          (ground arith, omega (arith, all_live)) (λ r h. h)

    -- Muting or saving keeps an exact count, and gives one to a reader that had no row.
    pub upsert_thread_read_state-IsExact :
        IsExact k a chat
        → IsExact k a (upsert_thread_read_state a k mute muted_until save saved_at chat)
    unfolding upsert_thread_read_state
    upsert_thread_read_state-IsExact exact =
        marked_self k a _ _ chat (λ j b r. unfold is_read_of in refl)
          (unfold is_read_of in ground arith)
          (λ r. r.unread_count ≡ count (is_unread k r.last_read_index) chat.comments) all_live exact
